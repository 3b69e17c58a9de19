-- ===== src/Storage/AccountSet.antt =====
-- `set` and the account of the memory, where it evicts (src/storage/StorageEngine.cpp).
use distributed_in_memory_ke.Prelude.{
  ℕ, ◌+◌, ◌%◌, ◌<◌, ◌≡◌, ap, refl, Bool, true, none, some, arith, two64,
}
use distributed_in_memory_ke.Storage.Entry.{
  CppString, DictEntry, Platform, add_size, sub_size, entry_cost, entry_cost-lt,
}
use distributed_in_memory_ke.Storage.Shards.{
  get_shard_index, get_shard_index-lt, entry_at, insert_key,
}
use distributed_in_memory_ke.Storage.Unique.{AreUnique}
use distributed_in_memory_ke.Storage.Live.{HasShards}
use distributed_in_memory_ke.Storage.Weight.{total_weight, total_weight-set}
use distributed_in_memory_ke.Storage.AccountEviction.{make_room-account}
use distributed_in_memory_ke.Storage.EvictionLoop.{make_room_lem}
use distributed_in_memory_ke.Storage.Evict.{Engine, Sampler, memory_add}
use distributed_in_memory_ke.Storage.Operations.{make_room, emplace, cost_at, set}

-- The entry that `emplace` stores for a new key.
abbrev stored : Platform → ℕ → CppString → DictEntry
stored platform now value = record {
  value = platform.copy value;
  expire_at_ms = 0;
  last_access_ms = now;
}

emplace_missing :
    (platform : Platform) (now : ℕ) (key value : CppString) (e : Engine)
    → entry_at platform e.shards key.chars ≡ none
    → emplace platform key value now e
      ≡ record e { shards = insert_key platform key (stored platform now value) e.shards }
unfolding emplace
emplace_missing platform now key value e missing = rw (missing, emplace) refl

insert_key-weight :
    (platform : Platform) (now : ℕ) (key value : CppString) (e : Engine)
    → HasShards e
    → total_weight platform (insert_key platform key (stored platform now value) e.shards)
      ≡ total_weight platform e.shards
        + entry_cost platform (platform.copy key) (platform.copy value)
unfolding insert_key
insert_key-weight platform now key value e h = omega (
  arith,
  total_weight-set platform e.shards (get_shard_index platform e.shards key.chars) _
      (get_shard_index-lt platform e.shards key.chars h),
)

-- What an account is short of when a cost is subtracted that is in it no more.
short_of :
    (t w more new old old' copied : ℕ)
    → t ≡ (w + more) % two64
    → old < two64
    → old' ≡ old
    → (add_size t (sub_size new old') + old + copied) % two64 ≡ (w + copied + more + new) % two64
short_of t w more new old old' copied account small same = omega arith

module _ (platform : Platform) (sampler : Sampler) (now : ℕ) (key value : CppString)
    (e : Engine) where
  -- The engine behind the eviction, and whether there is room.
  abbrev room : Engine × Bool
  room =
      make_room platform sampler key (entry_cost platform key value)
        (cost_at platform key (entry_at platform e.shards key.chars)) e

  -- A SET that finds room by evicting the old entry of its own key subtracts the cost of this entry
  -- twice: the account, with this cost and with that of the copies that are stored, is the sum of
  -- the costs of all entries with the cost of the given strings, and with the number of bytes, if
  -- any, by which the account was too high before, all modulo 2 ^ 64. In the engine there is a
  -- shard and no key stands twice.
  pub set-short :
      (old : DictEntry) (more : ℕ)
      → HasShards e
      → AreUnique e.shards
      → e.total_memory_usage ≡ (total_weight platform e.shards + more) % two64
      → room.1 ≡ true
      → entry_at platform e.shards key.chars ≡ some old
      → entry_at platform room.0.shards key.chars ≡ none
      → ((set platform sampler now key value e).0.total_memory_usage
            + entry_cost platform key old.value
            + entry_cost platform (platform.copy key) (platform.copy value))
          % two64
        ≡ (total_weight platform (set platform sampler now key value e).0.shards
            + more
            + entry_cost platform key value)
          % two64
  unfolding set
  set-short old more h unique account done there evicted =
      let cost = entry_cost platform key value in
      let paid = entry_cost platform key old.value in
      let level : cost_at platform key (entry_at platform e.shards key.chars) ≡ paid =
        ap (cost_at platform key) there in
      let h' : HasShards room.0 =
        rw ((make_room_lem platform sampler key cost _ e h).0.shard_count) h in
      let later = make_room-account platform sampler key cost _ more e h unique account in
      let paid_once =
        memory_add (sub_size cost (cost_at platform key (entry_at platform e.shards key.chars)))
          room.0 in
      rw
        (
          done,
          emplace_missing platform now key value paid_once evicted,
          insert_key-weight platform now key value room.0 h',
        )
        (short_of room.0.total_memory_usage (total_weight platform room.0.shards) more cost paid _
          (entry_cost platform (platform.copy key) (platform.copy value)) later
          (entry_cost-lt platform key old.value) level)
