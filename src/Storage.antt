-- ===== src/Storage.antt =====
-- The storage engine: include/storage/DictEntry.h, include/storage/StorageEngine.h and
-- src/storage/StorageEngine.cpp.
pub mod Entry
pub mod Dict
pub mod Shards
pub mod Evict
pub mod Operations
pub mod Live
pub mod Reads
pub mod Deletes
pub mod Deadlines
pub mod Victim
pub mod Eviction
pub mod EvictionLoop
pub mod Writes
pub mod Unique
pub mod Weight
pub mod KeptOperations
pub mod Meaning
pub mod UniqueOperations
pub mod Sweeper
pub mod NumberWrites
pub mod Numbers
pub mod AofLogger
pub mod AccountEviction
pub mod AccountSet
pub mod AccountSweep
