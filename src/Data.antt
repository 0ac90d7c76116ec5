-- ===== src/Data.antt =====
-- Data records: src-lib/btdata.c, on keys and duplicates of a root that may have them. A record is
-- a chain of segments in data blocks; a segment has six bytes of information (its size and the
-- address of the next one), then its data.
pub mod Words
pub mod Segment
pub mod Record
pub mod Update
pub mod Command
pub mod Store
