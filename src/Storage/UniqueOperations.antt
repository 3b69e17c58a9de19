-- ===== src/Storage/UniqueOperations.antt =====
-- The operations of `StorageEngine` (src/storage/StorageEngine.cpp) on dictionaries in which no key
-- stands twice.
use distributed_in_memory_ke.Prelude.{ℕ}
use distributed_in_memory_ke.Storage.Entry.{Platform}
use distributed_in_memory_ke.Storage.Shards.{Shards}
use distributed_in_memory_ke.Storage.Evict.{Engine}
use distributed_in_memory_ke.Storage.Unique.{
  AreUnique, erase_at-AreUnique, erase_key-AreUnique, update_key-AreUnique, insert_key-AreUnique,
}
use distributed_in_memory_ke.Storage.KeptOperations.{IsClosed}

abbrev pub HasUniqueKeys : Engine → Type 0
HasUniqueKeys e = AreUnique e.shards

-- The same without the limit.
abbrev pub UniqueShards : Shards → ℕ → Type 0
UniqueShards shards m = AreUnique shards

pub UniqueShards-IsClosed : (platform : Platform) → IsClosed platform UniqueShards
UniqueShards-IsClosed platform = record {
  erase_closed = λ key shards m u. erase_key-AreUnique platform shards u key;
  erase_at_closed = λ key k shards m u. erase_at-AreUnique platform shards u key k;
  update_closed = λ key new shards m u. update_key-AreUnique platform shards u key new;
  insert_closed =
      λ key new shards m missing u. insert_key-AreUnique platform shards u key new missing;
}
