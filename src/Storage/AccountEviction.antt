-- ===== src/Storage/AccountEviction.antt =====
-- Eviction and the memory that the entries take (src/storage/StorageEngine.cpp).
use distributed_in_memory_ke.Prelude.{
  Bool, ℕ, zero, suc, ◌+◌, ◌%◌, ◌≡◌, ◌∙◌, refl, Option-cases, some, inl, inr, arith, Bytes, ltb,
  length, length-set, two64, ◌&&◌,
}
use distributed_in_memory_ke.Storage.Entry.{
  CppString, DictEntry, Platform, add_size, entry_cost, entry_cost-lt,
}
use distributed_in_memory_ke.Storage.Dict.{find, erase}
use distributed_in_memory_ke.Storage.Shards.{shard_of, get_shard_index, get_shard_index-lt}
use distributed_in_memory_ke.Storage.Unique.{AreUnique, erase_at-AreUnique, shard_of-IsUnique}
use distributed_in_memory_ke.Storage.Live.{HasShards}
use distributed_in_memory_ke.Storage.Victim.{victim-IsNodeOf}
use distributed_in_memory_ke.Storage.Weight.{total_weight, total_weight-set, weight-erase, taken}
use distributed_in_memory_ke.Storage.Evict.{
  Engine, Sampler, victim, evict_node, evict_loop, evict_from_shard,
}
use distributed_in_memory_ke.Storage.Eviction.{Evicted}
use distributed_in_memory_ke.Storage.EvictionLoop.{IsDone, evict_from_shard_lem}
use distributed_in_memory_ke.Storage.KeptOperations.{if_holds}
use distributed_in_memory_ke.Storage.Operations.{make_room}

module _ (platform : Platform) where
  evict_node-weight :
      (key : Bytes) (k : CppString) (entry : DictEntry) (e : Engine)
      → HasShards e
      → AreUnique e.shards
      → find k.chars (shard_of platform e.shards key) ≡ some (k, entry)
      → total_weight platform (evict_node platform key (k, entry) e).shards
          + entry_cost platform k entry.value
        ≡ total_weight platform e.shards
  evict_node-weight key k entry e h unique found =
      let d = shard_of platform e.shards key in
      let lighter =
        weight-erase platform k.chars d (k, entry) (shard_of-IsUnique platform e.shards unique key)
          found in
      let written =
        total_weight-set platform e.shards (get_shard_index platform e.shards key) (erase k.chars d)
          (get_shard_index-lt platform e.shards key h) in
      omega arith

  -- An account of the memory that is off by some number of bytes stays off by it; and what the loop
  -- has freed is what the entries that it has removed weigh.
  abbrev Frees : ℕ → Engine → Engine × ℕ → Type 0
  Frees freed e (e', freed') =
      ((more : ℕ)
        → e.total_memory_usage ≡ (total_weight platform e.shards + more) % two64
        → e'.total_memory_usage ≡ (total_weight platform e'.shards + more) % two64)
      × ((total_weight platform e'.shards + freed') % two64
          ≡ (total_weight platform e.shards + freed) % two64)

  evict_loop-Frees :
      (sampler : Sampler) (f i : ℕ) (key : Bytes) (needed freed : ℕ) (e : Engine)
      → HasShards e
      → AreUnique e.shards
      → Frees freed e (evict_loop sampler platform f i key needed freed e)
  unfolding evict_loop
  evict_loop-Frees sampler zero i key needed freed e h unique = (λ more account. account, refl)
  evict_loop-Frees sampler (suc f) i key needed freed e h unique =
      if_holds (Frees freed e) (ltb freed needed)
        (elim (Option-cases (victim sampler i (shard_of platform e.shards key))) [
          | inl missing ↦ rw missing (λ more account. account, refl)
          | inr ((k, entry), chosen) ↦
              let e' = evict_node platform key (k, entry) e in
              let cost = entry_cost platform k entry.value in
              let here : find k.chars (shard_of platform e.shards key) ≡ some (k, entry) =
                rw chosen at (victim-IsNodeOf sampler i (shard_of platform e.shards key)) in
              let lighter = evict_node-weight key k entry e h unique here in
              let (later, freed') =
                evict_loop-Frees sampler f (5 + i) key needed (add_size freed cost) e'
                  (rw (length-set e.shards _ _) h)
                  (erase_at-AreUnique platform e.shards unique key k.chars) in
              rw chosen (
                (
                  λ more account. later more (
                      taken e.total_memory_usage (total_weight platform e.shards + more)
                        (total_weight platform e'.shards + more) cost account (omega arith)
                        (entry_cost-lt platform k entry.value)),
                  freed' ∙ omega arith,
                ))
        ])
        (λ more account. account, refl)

  -- In an engine with a shard and with no key twice, eviction ends after as many rounds as the
  -- shard has nodes, at most. By then it has freed the bytes that are needed, or the shard is
  -- empty; what it has freed is the sum of the costs of the entries that it has removed, modulo 2 ^
  -- 64; and all that it did to entries is to remove those of the shard: what is left is unchanged,
  -- and so are the other shards and the limit.
  pub evict_from_shard-frees :
      (sampler : Sampler) (key : Bytes) (needed : ℕ) (e : Engine)
      → HasShards e
      → AreUnique e.shards
      → Evicted platform key e (evict_from_shard sampler platform key needed e).0
        × IsDone sampler platform key needed (evict_from_shard sampler platform key needed e)
        × ((total_weight platform (evict_from_shard sampler platform key needed e).0.shards
                + (evict_from_shard sampler platform key needed e).1)
              % two64
            ≡ total_weight platform e.shards % two64)
  unfolding evict_from_shard
  evict_from_shard-frees sampler key needed e h unique =
      let (evicted, done) = evict_from_shard_lem sampler platform key needed e h in
      (
        evicted,
        done,
        (evict_loop-Frees sampler (length (shard_of platform e.shards key)) 0 key needed 0 e h
              unique).1
            ∙ omega arith,
      )

  pub make_room-account :
      (sampler : Sampler) (key : CppString) (new_cost old_cost more : ℕ) (e : Engine)
      → HasShards e
      → AreUnique e.shards
      → e.total_memory_usage ≡ (total_weight platform e.shards + more) % two64
      → (make_room platform sampler key new_cost old_cost e).0.total_memory_usage
        ≡ (total_weight platform (make_room platform sampler key new_cost old_cost e).0.shards
            + more)
          % two64
  unfolding make_room evict_from_shard
  make_room-account sampler key new_cost old_cost more e h unique account =
      if_holds {A = Engine × Bool}
        (λ out. out.0.total_memory_usage ≡ (total_weight platform out.0.shards + more) % two64)
        (ltb 0 e.max_memory_bytes
          && ltb (add_size e.max_memory_bytes old_cost) (add_size e.total_memory_usage new_cost))
        ((evict_loop-Frees sampler (length (shard_of platform e.shards key.chars)) 0 key.chars _ 0 e
            h unique).0
          more account)
        account
