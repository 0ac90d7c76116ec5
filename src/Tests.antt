-- ===== src/Tests.antt =====
-- The theorems at concrete states.
pub mod Cache
pub mod Blocks
pub mod Keys
pub mod Insert
pub mod Data
pub mod Delete
pub mod Split
pub mod Wider
pub mod Store
pub mod Shell
