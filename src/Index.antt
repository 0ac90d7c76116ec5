-- ===== src/Index.antt =====
-- The keys of an index: splitting, finding, inserting, updating and walking. A loop over blocks or
-- duplicates runs on `fuel`; the children that need the duplicates of a key take a `DupStore`.
pub mod Split
pub mod Leaf
pub mod Join
pub mod Delete
pub mod Find
pub mod Insert
pub mod Walk
pub mod Position
