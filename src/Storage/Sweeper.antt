-- ===== src/Storage/Sweeper.antt =====
-- `StorageEngine::background_sweeper` (src/storage/StorageEngine.cpp), one round of its loop. A shard
-- whose lock another thread holds is skipped: `owns` says which locks the round gets.
use distributed_in_memory_ke.Prelude.{
  ℕ, zero, suc, ◌≤◌, ◌≡◌, refl, Bool, true, Option, none, [], ◌∷◌, arith, inl, inr, Bool-cases,
  if◌then◌else◌, Bytes, bytes_eq, bytes_eq_sound, length, get_or, ◌∙◌,
}
use distributed_in_memory_ke.Storage.Entry.{CppString, Platform, DictEntry, is_expired, entry_cost}
use distributed_in_memory_ke.Storage.Dict.{Dict, find, entry_of}
use distributed_in_memory_ke.Storage.Shards.{Shards, get_shard_index, entry_at}
use distributed_in_memory_ke.Storage.Evict.{Engine, memory_sub, count_expired}
use distributed_in_memory_ke.Storage.Unique.{IsUnique, AreUnique}
use distributed_in_memory_ke.Storage.UniqueOperations.{HasUniqueKeys}
use distributed_in_memory_ke.Storage.Live.{Visible, visible, live, expired_later}

module _ (now : ℕ) where
  -- The dictionary after the loop over its first `n` nodes.
  unfoldable pub sweep_nodes : ℕ → Dict → Dict
  sweep_nodes zero d = d
  sweep_nodes (suc n) [] = []
  sweep_nodes (suc n) ((k, entry) ∷ d) =
      let rest = sweep_nodes n d in if is_expired entry now then rest else (k, entry) ∷ rest

  module _ (platform : Platform) where
    -- What the same loop does to the counters.
    unfoldable pub sweep_counters : ℕ → Dict → Engine → Engine
    sweep_counters zero d e = e
    sweep_counters (suc n) [] e = e
    sweep_counters (suc n) ((k, entry) ∷ d) e = sweep_counters n d (
        if is_expired entry now
        then count_expired (memory_sub (entry_cost platform k entry.value) e)
        else e)

  module _ (owns : ℕ → Bool) where
    -- The loop over the shards, from shard number `i` on; 20 nodes of each are checked.
    unfoldable pub sweep_shards : ℕ → Shards → Shards
    unfolding sweep_nodes
    sweep_shards i [] = []
    sweep_shards i (d ∷ shards) =
        (if owns i then sweep_nodes 20 d else d) ∷ sweep_shards (suc i) shards

    module _ (platform : Platform) where
      unfoldable pub sweep_shard_counters : ℕ → Shards → Engine → Engine
      unfolding sweep_counters
      sweep_shard_counters i [] e = e
      sweep_shard_counters i (d ∷ shards) e =
          sweep_shard_counters (suc i) shards (if owns i then sweep_counters platform 20 d e else e)

      unfoldable pub sweep : Engine → Engine
      unfolding sweep_shards sweep_shard_counters
      sweep e = record (sweep_shard_counters 0 e.shards e) { shards = sweep_shards 0 e.shards }

-- What is visible of a key in a dictionary.
abbrev seen : ℕ → Bytes → Dict → Option Visible
seen t j d = visible t (entry_of (find j d))

module _ (now t : ℕ) (later : now ≤ t) (j : Bytes) where
  -- A node that is swept was not visible, and no other node has its key.
  swept :
      (k : CppString) (entry : DictEntry) (d : Dict)
      → find k.chars d ≡ none
      → is_expired entry now ≡ true
      → seen t j ((k, entry) ∷ d) ≡ seen t j d
  unfolding find
  swept k entry d alone old = elim (Bool-cases (bytes_eq k.chars j)) [
    | inr other ↦ rw other
    | inl same ↦
        let gone : find j d ≡ none = rw (← bytes_eq_sound k.chars j same) alone in
        rw (same, gone) (expired_later entry now t old later)
  ]

  sweep_nodes-seen : (n : ℕ) (d : Dict) → IsUnique d → seen t j (sweep_nodes now n d) ≡ seen t j d
  unfolding sweep_nodes find
  sweep_nodes-seen zero d unique = refl
  sweep_nodes-seen (suc n) [] unique = refl
  sweep_nodes-seen (suc n) ((k, entry) ∷ d) unique =
      let rest = sweep_nodes-seen n d unique.1 in
      elim (Bool-cases (is_expired entry now)) [
        | inl old ↦ rw (old, rest, swept k entry d unique.0 old)
        | inr young ↦ rw young (elim (Bool-cases (bytes_eq k.chars j)) [
          | inl same ↦ rw same
          | inr other ↦ rw (other, rest)
        ])
      ]

  sweep_shards-seen :
      (owns : ℕ → Bool) (i index : ℕ) (shards : Shards)
      → AreUnique shards
      → seen t j (get_or (sweep_shards now owns i shards) index [])
        ≡ seen t j (get_or shards index [])
  unfolding sweep_shards
  sweep_shards-seen owns i index [] unique = refl
  sweep_shards-seen owns i zero (d ∷ shards) unique = elim (Bool-cases (owns i)) [
    | inl locked ↦ rw (locked, sweep_nodes-seen 20 d unique.0)
    | inr skipped ↦ rw skipped
  ]
  sweep_shards-seen owns i (suc index) (d ∷ shards) unique =
      sweep_shards-seen owns (suc i) index shards unique.1

pub length-sweep_shards :
    (now : ℕ) (owns : ℕ → Bool) (i : ℕ) (shards : Shards)
    → length (sweep_shards now owns i shards) ≡ length shards
unfolding sweep_shards
length-sweep_shards now owns i [] = refl
length-sweep_shards now owns i (d ∷ shards) = rw (length-sweep_shards now owns (suc i) shards)

module _ (now : ℕ) where
  -- A sweep adds no key.
  sweep_nodes-absent :
      (n : ℕ) (d : Dict) (j : Bytes) → find j d ≡ none → find j (sweep_nodes now n d) ≡ none
  unfolding sweep_nodes find
  sweep_nodes-absent zero d j h = h
  sweep_nodes-absent (suc n) [] j h = refl
  sweep_nodes-absent (suc n) ((k, entry) ∷ d) j h = ground (arith, sweep_nodes-absent n d j)

  sweep_nodes-IsUnique : (n : ℕ) (d : Dict) → IsUnique d → IsUnique (sweep_nodes now n d)
  unfolding sweep_nodes
  sweep_nodes-IsUnique zero d u = u
  sweep_nodes-IsUnique (suc n) [] u = u
  sweep_nodes-IsUnique (suc n) ((k, entry) ∷ d) u = elim (Bool-cases (is_expired entry now)) [
    | inl old ↦ rw old (sweep_nodes-IsUnique n d u.1)
    | inr young ↦ rw young ((sweep_nodes-absent n d k.chars u.0, sweep_nodes-IsUnique n d u.1))
  ]

  sweep_shards-AreUnique :
      (owns : ℕ → Bool) (i : ℕ) (shards : Shards)
      → AreUnique shards
      → AreUnique (sweep_shards now owns i shards)
  unfolding sweep_shards
  sweep_shards-AreUnique owns i [] u = u
  sweep_shards-AreUnique owns i (d ∷ shards) u = elim (Bool-cases (owns i)) [
    | inl locked ↦
        rw locked ((sweep_nodes-IsUnique 20 d u.0, sweep_shards-AreUnique owns (suc i) shards u.1))
    | inr skipped ↦ rw skipped ((u.0, sweep_shards-AreUnique owns (suc i) shards u.1))
  ]

-- A round of the sweeper leaves no key twice in an engine in which no key stands twice.
pub sweep-HasUniqueKeys :
    (platform : Platform) (now : ℕ) (owns : ℕ → Bool) (e : Engine)
    → HasUniqueKeys e
    → HasUniqueKeys (sweep now owns platform e)
unfolding sweep
sweep-HasUniqueKeys platform now owns e u = sweep_shards-AreUnique now owns 0 e.shards u

-- A round of the background sweeper at the time `now`, whichever locks it gets, is seen by no
-- client: in an engine in which no key stands twice every key has, at `now` and at any later time,
-- the value and the deadline that it had.
pub sweep-live :
    (platform : Platform) (now t : ℕ) (owns : ℕ → Bool) (e : Engine) (j : Bytes)
    → HasUniqueKeys e
    → now ≤ t
    → live platform t (sweep now owns platform e) j ≡ live platform t e j
unfolding sweep entry_at get_shard_index
sweep-live platform now t owns e j unique later =
    rw (length-sweep_shards now owns 0 e.shards)
      (sweep_shards-seen now t later j owns 0 (get_shard_index platform e.shards j) e.shards unique)

module _ (platform : Platform) (now : ℕ) where
  sweep_counters-limit :
      (n : ℕ) (d : Dict) (e : Engine)
      → (sweep_counters now platform n d e).max_memory_bytes ≡ e.max_memory_bytes
  unfolding sweep_counters
  sweep_counters-limit zero d e = refl
  sweep_counters-limit (suc n) [] e = refl
  sweep_counters-limit (suc n) ((k, entry) ∷ d) e = elim (Bool-cases (is_expired entry now)) [
    | inl old ↦ rw (old, sweep_counters) (sweep_counters-limit n d _)
    | inr young ↦ rw (young, sweep_counters) (sweep_counters-limit n d e)
  ]

  sweep_shard_counters-limit :
      (owns : ℕ → Bool) (i : ℕ) (shards : Shards) (e : Engine)
      → (sweep_shard_counters now owns platform i shards e).max_memory_bytes ≡ e.max_memory_bytes
  unfolding sweep_shard_counters
  sweep_shard_counters-limit owns i [] e = refl
  sweep_shard_counters-limit owns i (d ∷ shards) e = elim (Bool-cases (owns i)) [
    | inl locked ↦
        rw (locked, sweep_shard_counters)
          (sweep_shard_counters-limit owns (suc i) shards (sweep_counters now platform 20 d e)
            ∙ sweep_counters-limit 20 d e)
    | inr skipped ↦
        rw (skipped, sweep_shard_counters) (sweep_shard_counters-limit owns (suc i) shards e)
  ]

  -- A round keeps the number of shards and the limit.
  pub sweep-limit :
      (owns : ℕ → Bool) (e : Engine)
      → (length (sweep now owns platform e).shards ≡ length e.shards)
        × ((sweep now owns platform e).max_memory_bytes ≡ e.max_memory_bytes)
  unfolding sweep
  sweep-limit owns e =
      (length-sweep_shards now owns 0 e.shards, sweep_shard_counters-limit owns 0 e.shards e)
