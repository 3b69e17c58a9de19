-- ===== src/Examples/Memory.antt =====
-- Runs of the laws on the account of the memory (src/storage/StorageEngine.cpp).
use distributed_in_memory_ke.Prelude.{
  ℕ, ◌+◌, ◌%◌, ◌≡◌, refl, true, [], ◌∷◌, arith, bytes_eq, codes, length, two64,
}
use distributed_in_memory_ke.Storage.Entry.{Platform, CppString, entry_cost}
use distributed_in_memory_ke.Storage.Dict.{find, erase}
use distributed_in_memory_ke.Storage.Shards.{entry_at, get_shard_index}
use distributed_in_memory_ke.Storage.Evict.{Engine, new_engine, evict_from_shard, victim}
use distributed_in_memory_ke.Storage.Operations.{make_room, set}
use distributed_in_memory_ke.Storage.Sweeper.{sweep}
use distributed_in_memory_ke.Storage.Weight.{total_weight}
use distributed_in_memory_ke.Storage.AccountSet.{set-short}
use distributed_in_memory_ke.Storage.AccountSweep.{sweep-account}
use distributed_in_memory_ke.Examples.{text, a, entry, no_sample}

-- A platform that copies strings without spare capacity, and keeps that of a string it assigns to.
abbrev sparing_platform : Platform
sparing_platform = record {
  hash = length;
  sizeof_entry = 48;
  make = text;
  copy = λ s. text s.chars;
  assign = λ t s. record (text s.chars) { capacity = t.capacity + s.capacity };
  move_assign = λ t s. text s.chars;
  make_chars = λ s. refl;
  copy_chars = λ s. refl;
  assign_chars = λ t s. refl;
  move_assign_chars = λ t s. refl;
}

-- The key `a` with a deadline at 100, and a limit.
abbrev one_key : ℕ → Engine
one_key limit = record (new_engine 2) {
  shards = [] ∷ ((a, entry (codes "1") 100 10) ∷ []) ∷ [];
  total_memory_usage = 82;
  max_memory_bytes = limit;
}

abbrev new_value : CppString
new_value = text (codes "12345678901234567890123")

-- Nothing is off at the start.
sweep-account_example :
    (sweep 200 (λ i. true) sparing_platform (one_key 0)).total_memory_usage
    ≡ (total_weight sparing_platform (sweep 200 (λ i. true) sparing_platform (one_key 0)).shards
        + 0)
      % two64
unfolding entry_cost
sweep-account_example = sweep-account sparing_platform 200 (λ i. true) (one_key 0) 0 refl

-- The new value needs 4 bytes more than the limit allows, and the only key of the shard is evicted.
set-short_example :
    ((set sparing_platform no_sample 50 a new_value (one_key 100)).0.total_memory_usage
        + entry_cost sparing_platform a (text (codes "1"))
        + entry_cost sparing_platform (text a.chars) (text new_value.chars))
      % two64
    ≡ (total_weight sparing_platform
          (set sparing_platform no_sample 50 a new_value (one_key 100)).0.shards
        + 0
        + entry_cost sparing_platform a new_value)
      % two64
unfolding entry_cost entry_at make_room evict_from_shard get_shard_index find bytes_eq victim erase
set-short_example =
    set-short sparing_platform no_sample 50 a new_value (one_key 100) (entry (codes "1") 100 10) 0
      (omega arith) (tt, ((refl, tt), tt)) refl refl refl refl
