-- ===== src/Storage/Evict.antt =====
-- The state of `StorageEngine` (include/storage/StorageEngine.h) and `evict_from_shard`
-- (src/storage/StorageEngine.cpp).
-- An operation runs under the lock of its shard, and here as one step. The atomic counters are
-- 64-bit words that wrap around.
use distributed_in_memory_ke.Prelude.{
  ℕ, zero, suc, ◌+◌, ◌-◌, ◌^◌, Option, none, some, [], ◌∷◌, ltb, if◌then◌else◌, Bytes, length,
}
use distributed_in_memory_ke.Storage.Entry.{Platform, add_size, sub_size, entry_cost}
use distributed_in_memory_ke.Storage.Dict.{Node, Dict, find, erase}
use distributed_in_memory_ke.Storage.Shards.{Shards, shard_of, write_shard}

pub record Engine : Type 0 where
  pub shards : Shards
  pub total_memory_usage : ℕ
  pub max_memory_bytes : ℕ
  pub keyspace_hits : ℕ
  pub keyspace_misses : ℕ
  pub evicted_keys : ℕ
  pub expired_keys : ℕ

-- `StorageEngine(num_shards)`
abbrev pub no_shards : ℕ → Shards
no_shards zero = []
no_shards (suc n) = [] ∷ no_shards n

abbrev pub new_engine : ℕ → Engine
new_engine num_shards = record {
  shards = no_shards num_shards;
  total_memory_usage = 0;
  max_memory_bytes = 0;
  keyspace_hits = 0;
  keyspace_misses = 0;
  evicted_keys = 0;
  expired_keys = 0;
}

abbrev pub set_max_memory : ℕ → Engine → Engine
set_max_memory bytes e = record e { max_memory_bytes = bytes }

-- The getters.
abbrev pub memory_usage : Engine → ℕ
memory_usage e = e.total_memory_usage

abbrev pub get_max_memory : Engine → ℕ
get_max_memory e = e.max_memory_bytes

abbrev pub get_keyspace_hits : Engine → ℕ
get_keyspace_hits e = e.keyspace_hits

abbrev pub get_keyspace_misses : Engine → ℕ
get_keyspace_misses e = e.keyspace_misses

abbrev pub get_evicted_keys : Engine → ℕ
get_evicted_keys e = e.evicted_keys

abbrev pub get_expired_keys : Engine → ℕ
get_expired_keys e = e.expired_keys

-- `fetch_add` and `fetch_sub` on the counters.
abbrev pub memory_add : ℕ → Engine → Engine
memory_add n e = record e { total_memory_usage = add_size e.total_memory_usage n }

abbrev pub memory_sub : ℕ → Engine → Engine
memory_sub n e = record e { total_memory_usage = sub_size e.total_memory_usage n }

abbrev pub count_hit : Engine → Engine
count_hit e = record e { keyspace_hits = add_size e.keyspace_hits 1 }

abbrev pub count_miss : Engine → Engine
count_miss e = record e { keyspace_misses = add_size e.keyspace_misses 1 }

abbrev pub count_expired : Engine → Engine
count_expired e = record e { expired_keys = add_size e.expired_keys 1 }

abbrev pub count_evicted : Engine → Engine
count_evicted e = record e { evicted_keys = add_size e.evicted_keys 1 }

-- The random buckets. Draw number `i` selects a bucket of a dictionary; the sample is the key of the
-- bucket's first node, or nothing where the bucket is empty.
abbrev pub Sampler : Type 0
Sampler = ℕ → Dict → Option Bytes

-- `oldest_time` before the first sample.
abbrev pub max_u64 : ℕ
max_u64 = 2 ^ 64 - 1

-- `best_it` and `oldest_time`.
abbrev pub Best : Type 0
Best = Option Node × ℕ

unfoldable pub keep_older : Best → Option Node → Best
keep_older best none = best
keep_older (node, oldest) (some (k, entry)) =
    if ltb entry.last_access_ms oldest
    then (some (k, entry), entry.last_access_ms)
    else (node, oldest)

unfoldable pub sample_node : Option Bytes → Dict → Option Node
sample_node none d = none
sample_node (some key) d = find key d

abbrev pub first_node : Dict → Option Node
first_node [] = none
first_node (node ∷ d) = some node

abbrev pub or_first : Dict → Option Node → Option Node
or_first d (some node) = some node
or_first d none = first_node d

module _ (platform : Platform) where
  -- The node is erased from the shard in hand, that of `key`.
  abbrev pub evict_node : Bytes → Node → Engine → Engine
  evict_node key (k, entry) e =
      count_evicted (record (memory_sub (entry_cost platform k entry.value) e) {
        shards = write_shard platform e.shards key (erase k.chars (shard_of platform e.shards key));
      })

module _ (sampler : Sampler) where
  -- `n` samples, from draw number `i` on.
  unfoldable pub sample_loop : ℕ → ℕ → Dict → Best → Best
  unfolding keep_older sample_node
  sample_loop zero i d best = best
  sample_loop (suc n) i d best =
      sample_loop n (suc i) d (keep_older best (sample_node (sampler i d) d))

  -- The node to evict: the least recently used of five samples, or else the first of the dictionary.
  unfoldable pub victim : ℕ → Dict → Option Node
  unfolding sample_loop
  victim i d = or_first d (sample_loop 5 i d (none, max_u64)).0

  module _ (platform : Platform) where
    -- The loop `while (freed < needed && !dict.empty())` over the shard of `key`, from draw number
    -- `i` on. Each round erases a node, so as many rounds as the shard has nodes are enough.
    unfoldable pub evict_loop : ℕ → ℕ → Bytes → ℕ → ℕ → Engine → Engine × ℕ
    unfolding victim
    evict_loop zero i key needed freed e = (e, freed)
    evict_loop (suc f) i key needed freed e =
        if ltb freed needed
        then elim (victim i (shard_of platform e.shards key)) [
          | none ↦ (e, freed)
          | some (k, entry) ↦
              evict_loop f (5 + i) key needed (add_size freed (entry_cost platform k entry.value))
                (evict_node platform key (k, entry) e)
        ]
        else (e, freed)

    unfoldable pub evict_from_shard : Bytes → ℕ → Engine → Engine × ℕ
    unfolding evict_loop
    evict_from_shard key needed e =
        evict_loop (length (shard_of platform e.shards key)) 0 key needed 0 e
