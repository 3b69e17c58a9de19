-- ===== src/Examples/Storage.antt =====
-- Runs of the laws of the storage engine (src/storage/StorageEngine.cpp).
use distributed_in_memory_ke.Prelude.{
  ◌%◌, ◌^◌, ◌<◌, two64, ℕ, ◌+◌, ◌-◌, ◌≤◌, ◌≡◌, ◌⊎◌, refl, true, none, some, [], ◌∷◌, arith, Bytes,
  codes, bytes_eq, if◌then◌else◌, ltb, ◌==◌, pos, negsuc, to_u64,
}
use distributed_in_memory_ke.Storage.Entry.{add_size, entry_cost}
use distributed_in_memory_ke.Storage.Shards.{entry_at, get_shard_index}
use distributed_in_memory_ke.Storage.Dict.{find, erase}
use distributed_in_memory_ke.Storage.Evict.{Sampler, evict_from_shard, victim, sample_node}
use distributed_in_memory_ke.Storage.Live.{live}
use distributed_in_memory_ke.Storage.Operations.{set, get, del, expire, pttl}
use distributed_in_memory_ke.Storage.Writes.{set-live, set-kept, set-refused}
use distributed_in_memory_ke.Storage.Reads.{value_of, get-live}
use distributed_in_memory_ke.Storage.Deletes.{
  is_listed, count_distinct, present, entry_at-del, del-count,
}
use distributed_in_memory_ke.Storage.Deadlines.{is_visible, with_deadline, pttl-expire, expire-live}
use distributed_in_memory_ke.Storage.Eviction.{Evicted}
use distributed_in_memory_ke.Storage.EvictionLoop.{IsDone}
use distributed_in_memory_ke.Storage.Weight.{total_weight}
use distributed_in_memory_ke.Storage.AccountEviction.{evict_from_shard-frees}
use distributed_in_memory_ke.Storage.Victim.{victim-oldest}
use distributed_in_memory_ke.Storage.Sweeper.{sweep, sweep-live}
use distributed_in_memory_ke.Examples.{
  platform, no_sample, text, entry, a, b, cd, three_keys, full_engine, tight_engine,
}

-- At the limit, and within it.
set-live_example :
    ((set platform no_sample 50 a b three_keys).1 ≡ true)
    × ((t : ℕ) (j : Bytes)
        → live platform t (set platform no_sample 50 a b three_keys).0 j
          ≡ (if bytes_eq a.chars j then some (b.chars, 0) else live platform t three_keys j))
set-live_example = set-live platform a b 50 no_sample three_keys (omega arith) refl

-- The eviction that makes room takes the key itself, the first of its shard.
set-kept_example :
    let e' = (set platform no_sample 50 b (text (codes "123456")) full_engine).0 in
    (live platform 60 e' b.chars ≡ some (codes "123456", 0))
    × ((live platform 60 e' a.chars ≡ live platform 60 full_engine a.chars)
        ⊎ (live platform 60 e' a.chars ≡ none))
    × ((get_shard_index platform full_engine.shards b.chars
          ≡ get_shard_index platform full_engine.shards a.chars)
        ⊎ (live platform 60 e' a.chars ≡ live platform 60 full_engine a.chars))
unfolding set bytes_eq entry_at get_shard_index find erase entry_cost evict_from_shard
set-kept_example =
    set-kept platform b (text (codes "123456")) 50 no_sample full_engine (omega arith) refl 60
      a.chars refl

set-refused_example :
    let e' = (set platform no_sample 50 a b tight_engine).0 in
    live platform 60 e' b.chars ≡ (
      if get_shard_index platform tight_engine.shards a.chars
        == get_shard_index platform tight_engine.shards b.chars
      then none
      else live platform 60 tight_engine b.chars)
unfolding set bytes_eq entry_at get_shard_index find erase entry_cost evict_from_shard
set-refused_example =
    set-refused platform a b 50 no_sample tight_engine (omega arith) refl 60 b.chars

get-live_example :
    ((get platform 50 a three_keys).1 ≡ value_of (live platform 50 three_keys a.chars))
    × (live platform 120 (get platform 50 a three_keys).0 b.chars
        ≡ live platform 120 three_keys b.chars)
get-live_example = get-live platform 50 three_keys (omega arith) 120 b.chars (omega arith) a

-- The deadline of the key has passed.

entry_at-del_example :
    entry_at platform (del platform (a ∷ cd ∷ []) three_keys).0.shards b.chars ≡ (
      if is_listed (a ∷ cd ∷ []) b.chars then none else entry_at platform three_keys.shards b.chars)
entry_at-del_example = entry_at-del platform (a ∷ cd ∷ []) three_keys b.chars (omega arith)

del-count_example :
    ((del platform (a ∷ cd ∷ a ∷ []) three_keys).1
      ≡ count_distinct (present platform three_keys) (a ∷ cd ∷ a ∷ []))
    × ((del platform (a ∷ cd ∷ a ∷ []) three_keys).1 < 2 ^ 31)
del-count_example = del-count platform (a ∷ cd ∷ a ∷ []) three_keys (omega arith) (omega arith)

expire-live_example :
    ((expire platform 50 b (pos 1000) three_keys).1
      ≡ is_visible (live platform 50 three_keys b.chars))
    × (live platform 60 (expire platform 50 b (pos 1000) three_keys).0 b.chars ≡ (
        if bytes_eq b.chars b.chars
        then with_deadline
            (add_size 50 (to_u64 (pos 1000)))
            60
            (live platform 50 three_keys b.chars)
        else live platform 60 three_keys b.chars))
expire-live_example =
    expire-live platform 50 b three_keys (omega arith) 60 b.chars (omega arith) (pos 1000)

pttl-expire_example :
    (pttl platform 400 b (expire platform 50 b (pos 1000) three_keys).0).1
    ≡ (if ltb 400 (50 + 1000) then pos (50 + 1000 - 400) else negsuc 1)
unfolding entry_at bytes_eq find get_shard_index
pttl-expire_example =
    pttl-expire platform 50 b three_keys 1000 400 (codes "y", 0) (omega arith) refl (omega arith)
      (omega arith) (omega arith)

evict_from_shard-frees_example :
    Evicted platform a.chars full_engine
      (evict_from_shard no_sample platform a.chars 90 full_engine).0
    × IsDone no_sample platform a.chars 90
        (evict_from_shard no_sample platform a.chars 90 full_engine)
    × ((total_weight platform (evict_from_shard no_sample platform a.chars 90 full_engine).0.shards
            + (evict_from_shard no_sample platform a.chars 90 full_engine).1)
          % two64
        ≡ total_weight platform full_engine.shards % two64)
unfolding find bytes_eq
evict_from_shard-frees_example =
    evict_from_shard-frees platform no_sample a.chars 90 full_engine (omega arith)
      ((refl, tt), ((refl, (refl, tt)), tt))

-- The draws hit the two nodes in turn.
abbrev alternating : Sampler
alternating i d = some (if i == 1 then codes "a" else codes "b")

victim-oldest_example :
    ((entry (codes "41") 100 5).last_access_ms ≤ (entry (codes "y") 0 6).last_access_ms)
    × ((n : ℕ) × (n < 5)
        × (sample_node
              (alternating
                (n + 0)
                ((b, entry (codes "y") 0 6) ∷ (a, entry (codes "41") 100 5) ∷ []))
              ((b, entry (codes "y") 0 6) ∷ (a, entry (codes "41") 100 5) ∷ [])
            ≡ some (a, entry (codes "41") 100 5)))
unfolding victim sample_node bytes_eq find
victim-oldest_example =
    victim-oldest alternating 0 2 ((b, entry (codes "y") 0 6) ∷ (a, entry (codes "41") 100 5) ∷ [])
      a b (entry (codes "41") 100 5) (entry (codes "y") 0 6) refl (omega arith) refl (omega arith)

-- The deadline of `a` has passed.
sweep-live_example :
    live platform 160 (sweep 150 (λ i. true) platform three_keys) a.chars
    ≡ live platform 160 three_keys a.chars
unfolding find bytes_eq
sweep-live_example =
    sweep-live platform 150 160 (λ i. true) three_keys a.chars
      ((refl, tt), ((refl, (refl, tt)), tt)) (omega arith)
