-- ===== src/Storage/EvictionLoop.antt =====
-- The loop of `evict_from_shard` (src/storage/StorageEngine.cpp) and the decision to run it.
use distributed_in_memory_ke.Prelude.{
  ℕ, zero, suc, ◌+◌, ◌-◌, ◌≤◌, ◌<◌, ◌≡◌, ◌⊎◌, refl, Bool, true, false, ◌&&◌, none, some, [], ◌∷◌,
  arith, Bytes, length, ltb, ltb→lt, ltb-le, lt→ltb, le→ltb, Bool-cases, Option-cases, inl, inr,
  if◌then◌else◌,
}
use distributed_in_memory_ke.Storage.Entry.{CppString, DictEntry, Platform, add_size, entry_cost}
use distributed_in_memory_ke.Storage.Dict.{Dict, find, erase, contains}
use distributed_in_memory_ke.Storage.Shards.{shard_of, shard_of-write_same}
use distributed_in_memory_ke.Storage.Evict.{
  Engine, Sampler, victim, evict_node, evict_loop, evict_from_shard,
}
use distributed_in_memory_ke.Storage.Victim.{victim-IsNodeOf, victim-none}
use distributed_in_memory_ke.Storage.Eviction.{
  Evicted, Evicted-refl, Evicted-trans, evict_node-Evicted, length-erase_lt,
}
use distributed_in_memory_ke.Storage.Live.{HasShards}
use distributed_in_memory_ke.Storage.Operations.{make_room}

no_nodes : (d : Dict) → length d ≤ 0 → d ≡ []
no_nodes [] h = refl
no_nodes (node ∷ d) h = absurd (omega arith)

module _ (platform : Platform) (key : Bytes) where
  emptied :
      (needed freed : ℕ) (e : Engine)
      → (needed ≤ freed) ⊎ (shard_of platform e.shards key ≡ [])
      → (if ltb freed needed then false else true) ≡ false
      → shard_of platform e.shards key ≡ []
  emptied needed freed e (inr empty) refused = empty
  emptied needed freed e (inl enough) refused =
      absurd (cc (rw (le→ltb freed needed enough) at refused))

module _ (sampler : Sampler) (platform : Platform) (key : Bytes) (needed : ℕ) where
  -- A round of the loop.
  evict_loop_round :
      (f i freed : ℕ) (e : Engine) (k : CppString) (entry : DictEntry)
      → freed < needed
      → victim sampler i (shard_of platform e.shards key) ≡ some (k, entry)
      → evict_loop sampler platform (suc f) i key needed freed e
        ≡ evict_loop sampler platform f
            (5 + i)
            key
            needed
            (add_size freed (entry_cost platform k entry.value))
            (evict_node platform key (k, entry) e)
  unfolding evict_loop
  evict_loop_round f i freed e k entry more chosen = rw (lt→ltb freed needed more, chosen)

  evict_loop-none :
      (f i freed : ℕ) (e : Engine)
      → victim sampler i (shard_of platform e.shards key) ≡ none
      → evict_loop sampler platform (suc f) i key needed freed e ≡ (e, freed)
  unfolding evict_loop
  evict_loop-none f i freed e missing = elim (Bool-cases (ltb freed needed)) [
    | inl more ↦ rw (more, missing)
    | inr enough ↦ rw enough
  ]

  evict_loop_enough :
      (f i freed : ℕ) (e : Engine)
      → needed ≤ freed
      → evict_loop sampler platform f i key needed freed e ≡ (e, freed)
  unfolding evict_loop
  evict_loop_enough zero i freed e enough = refl
  evict_loop_enough (suc f) i freed e enough = rw (le→ltb freed needed enough)

  shard_after :
      (e : Engine) (k : CppString) (entry : DictEntry)
      → HasShards e
      → shard_of platform (evict_node platform key (k, entry) e).shards key
        ≡ erase k.chars (shard_of platform e.shards key)
  shard_after e k entry h = shard_of-write_same platform e.shards key key _ h refl

  -- The loop has freed enough, or nothing is left to evict.
  abbrev pub IsDone : Engine × ℕ → Type 0
  IsDone (e, freed) = (needed ≤ freed) ⊎ (shard_of platform e.shards key ≡ [])

  evict_loop_lem :
      (f i freed : ℕ) (e : Engine)
      → HasShards e
      → length (shard_of platform e.shards key) ≤ f
      → Evicted platform key e (evict_loop sampler platform f i key needed freed e).0
        × IsDone (evict_loop sampler platform f i key needed freed e)
  unfolding evict_loop
  evict_loop_lem zero i freed e h fuel =
      (Evicted-refl platform key e, inr (no_nodes (shard_of platform e.shards key) fuel))
  evict_loop_lem (suc f) i freed e h fuel = elim (Bool-cases (ltb freed needed)) [
    | inr enough ↦
        rw (evict_loop_enough (suc f) i freed e (ltb-le freed needed enough))
          (Evicted-refl platform key e, inl (ltb-le freed needed enough))
    | inl more ↦ elim (Option-cases (victim sampler i (shard_of platform e.shards key))) [
      | inl missing ↦
          rw (evict_loop-none f i freed e missing)
            (Evicted-refl platform key e, inr (victim-none sampler i _ missing))
      | inr ((k, entry), chosen) ↦
          let e' = evict_node platform key (k, entry) e in
          let step = evict_node-Evicted platform key k entry e h in
          let here : find k.chars (shard_of platform e.shards key) ≡ some (k, entry) =
            rw chosen at (victim-IsNodeOf sampler i (shard_of platform e.shards key)) in
          let inside : contains k.chars (shard_of platform e.shards key) ≡ true =
            rw (here, contains) refl in
          let less = length-erase_lt k.chars (shard_of platform e.shards key) inside in
          let fuel' : length (shard_of platform e'.shards key) ≤ f =
            rw (shard_after e k entry h) (omega arith) in
          let h' : HasShards e' = rw step.shard_count h in
          let (rest, done) =
            evict_loop_lem f (5 + i) (add_size freed (entry_cost platform k entry.value)) e' h'
              fuel' in
          rw (evict_loop_round f i freed e k entry (ltb→lt freed needed more) chosen)
            (Evicted-trans platform key step rest, done)
    ]
  ]

  -- In an engine with a shard, eviction ends after as many rounds as the shard has nodes, at most.
  -- By then it has freed the bytes that are needed, or the shard is empty; and all that it did to
  -- entries is to remove those of the shard: what is left is unchanged, and so are the other shards
  -- and the limit.
  pub evict_from_shard_lem :
      (e : Engine)
      → HasShards e
      → Evicted platform key e (evict_from_shard sampler platform key needed e).0
        × IsDone (evict_from_shard sampler platform key needed e)
  unfolding evict_from_shard
  evict_from_shard_lem e h =
      evict_loop_lem (length (shard_of platform e.shards key)) 0 0 e h (omega arith)

module _ (platform : Platform) (sampler : Sampler) (key : CppString) (new_cost old_cost : ℕ)
    (e : Engine) where
  -- The limit is exceeded, as `set`, `incr` and `decr` test it.
  abbrev pub exceeds : Bool
  exceeds =
      ltb 0 e.max_memory_bytes
      && ltb (add_size e.max_memory_bytes old_cost) (add_size e.total_memory_usage new_cost)

  pub make_room-fits :
      exceeds ≡ false → make_room platform sampler key new_cost old_cost e ≡ (e, true)
  unfolding make_room
  make_room-fits fits = rw fits

  -- Where room is refused, the whole shard has been emptied.
  pub make_room_lem :
      HasShards e
      → Evicted platform key.chars e (make_room platform sampler key new_cost old_cost e).0
        × ((make_room platform sampler key new_cost old_cost e).1 ≡ false
            → shard_of platform
                (make_room platform sampler key new_cost old_cost e).0.shards
                key.chars
              ≡ [])
  unfolding make_room
  make_room_lem h = elim (Bool-cases exceeds) [
    | inr fits ↦ rw fits (Evicted-refl platform key.chars e, λ refused. cc)
    | inl over ↦
        let needed =
          add_size e.total_memory_usage new_cost - add_size e.max_memory_bytes old_cost in
        let r = evict_from_shard sampler platform key.chars needed e in
        let (evicted, done) = evict_from_shard_lem sampler platform key.chars needed e h in
        rw over (evicted, λ refused. emptied platform key.chars needed r.1 r.0 done refused)
  ]
