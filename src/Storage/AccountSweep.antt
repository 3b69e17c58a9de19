-- ===== src/Storage/AccountSweep.antt =====
-- The background sweeper keeps the account of the memory (src/storage/StorageEngine.cpp).
use distributed_in_memory_ke.Prelude.{
  ℕ, zero, suc, ◌+◌, ◌%◌, ◌≡◌, ◌∙◌, ap, Bool, Bool-cases, [], ◌∷◌, inl, inr, arith, two64,
}
use distributed_in_memory_ke.Storage.Entry.{Platform, is_expired, entry_cost, entry_cost-lt}
use distributed_in_memory_ke.Storage.Dict.{Dict}
use distributed_in_memory_ke.Storage.Shards.{Shards}
use distributed_in_memory_ke.Storage.Weight.{weight, total_weight, taken}
use distributed_in_memory_ke.Storage.Evict.{Engine, memory_sub, count_expired}
use distributed_in_memory_ke.Storage.Sweeper.{
  sweep_nodes, sweep_counters, sweep_shards, sweep_shard_counters, sweep,
}

module _ (platform : Platform) (now : ℕ) where
  -- The counters of a dictionary, beside what the other dictionaries weigh.
  sweep_counters-weight :
      (n : ℕ) (d : Dict) (e : Engine) (others : ℕ)
      → e.total_memory_usage ≡ (weight platform d + others) % two64
      → (sweep_counters now platform n d e).total_memory_usage
        ≡ (weight platform (sweep_nodes now n d) + others) % two64
  unfolding sweep_nodes sweep_counters
  sweep_counters-weight zero d e others h = h
  sweep_counters-weight (suc n) [] e others h = h
  sweep_counters-weight (suc n) ((k, entry) ∷ d) e others h =
      let cost = entry_cost platform k entry.value in
      elim (Bool-cases (is_expired entry now)) [
        | inl old ↦
            rw (old, sweep_counters)
              (sweep_counters-weight n d (count_expired (memory_sub cost e)) others (
                taken e.total_memory_usage (cost + weight platform d + others) _ cost h
                  (omega arith) (entry_cost-lt platform k entry.value)))
        | inr young ↦
            rw (young, sweep_counters)
              (sweep_counters-weight n d e (cost + others) (h ∙ ap (λ s. s % two64) (omega arith))
                ∙ ap (λ s. s % two64) (omega arith))
      ]

  sweep_shard_counters-weight :
      (owns : ℕ → Bool) (i : ℕ) (shards : Shards) (e : Engine) (others : ℕ)
      → e.total_memory_usage ≡ (total_weight platform shards + others) % two64
      → (sweep_shard_counters now owns platform i shards e).total_memory_usage
        ≡ (total_weight platform (sweep_shards now owns i shards) + others) % two64
  unfolding sweep_shards sweep_shard_counters
  sweep_shard_counters-weight owns i [] e others h = h
  sweep_shard_counters-weight owns i (d ∷ shards) e others h = elim (Bool-cases (owns i)) [
    | inl locked ↦
        let swept = weight platform (sweep_nodes now 20 d) in
        let here =
          sweep_counters-weight 20 d e (total_weight platform shards + others)
            (h ∙ ap (λ s. s % two64) (omega arith)) in
        rw (locked, sweep_shard_counters)
          (sweep_shard_counters-weight owns (suc i) shards (sweep_counters now platform 20 d e)
              (swept + others) (here ∙ ap (λ s. s % two64) (omega arith))
            ∙ ap (λ s. s % two64) (omega arith))
    | inr skipped ↦
        rw (skipped, sweep_shard_counters)
          (sweep_shard_counters-weight owns (suc i) shards e (weight platform d + others)
              (h ∙ ap (λ s. s % two64) (omega arith))
            ∙ ap (λ s. s % two64) (omega arith))
  ]

  -- A round of the background sweeper, whichever locks it gets, takes off the account of the memory
  -- exactly what the entries that it removes weigh: an account that is the sum of the costs of all
  -- entries and some number of bytes more, modulo 2 ^ 64, is so afterwards, with the same number.
  -- The costs are those of the capacities that the strings have, on any platform.
  pub sweep-account :
      (owns : ℕ → Bool) (e : Engine) (more : ℕ)
      → e.total_memory_usage ≡ (total_weight platform e.shards + more) % two64
      → (sweep now owns platform e).total_memory_usage
        ≡ (total_weight platform (sweep now owns platform e).shards + more) % two64
  unfolding sweep
  sweep-account owns e more account = sweep_shard_counters-weight owns 0 e.shards e more account
