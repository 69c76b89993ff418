-- ===== src/Swap.antt =====
-- src/swap.cpp: the swap device. Sectors of data are numbered; a map says for each of them where it
-- is: in a slot of the cache in memory, in the swap file, or nowhere yet. Free sectors are chained
-- through the map itself.
-- The type Sector has 16 bits, as src/config.h defines it, and SW_UNUSED is its last value.
pub mod Device
pub mod Size
pub mod Free
pub mod Cache
pub mod Compress
pub mod Bits
pub mod Coded
pub mod Decoded
pub mod Shorter
pub mod Chain
pub mod Relink
pub mod Coherent
pub mod Filled
pub mod Emptied
pub mod Saved
pub mod Listed
pub mod Brought
pub mod Claimed
pub mod Loaded
pub mod Recent
pub mod Transfer
pub mod Written
pub mod Writes
pub mod Vectors
pub mod Roundtrip
pub mod Fresh
pub mod Given
mod Runs
mod Tests
