-- ===== src/Storage/Numbers.antt =====
-- INCR and DECR on the map of live keys (src/storage/StorageEngine.cpp).
use distributed_in_memory_ke.Prelude.{ℕ, ◌≤◌, ◌≡◌, Bytes, bytes_eq, if◌then◌else◌}
use distributed_in_memory_ke.Storage.Entry.{CppString, Platform}
use distributed_in_memory_ke.Storage.Evict.{Engine, Sampler}
use distributed_in_memory_ke.Storage.Operations.{increment, decrement, incr, decr}
use distributed_in_memory_ke.Storage.Live.{live, HasShards}
use distributed_in_memory_ke.Storage.NumberWrites.{number_of, stepped, after_step, steps}

module _ (platform : Platform) (key : CppString) (sampler : Sampler) (now : ℕ) (e : Engine)
    (h : HasShards e) (free : e.max_memory_bytes ≡ 0) where
  -- INCR and DECR, at every time and for every key.
  pub incr_views :
      ((incr platform sampler now key e).1
        ≡ stepped (increment) (number_of (live platform now e key.chars)))
      × ((t : ℕ) (j : Bytes)
          → now ≤ t
          → live platform t (incr platform sampler now key e).0 j ≡ (
              if bytes_eq key.chars j
              then after_step
                  (increment)
                  t
                  (number_of (live platform now e key.chars))
                  (live platform t e key.chars)
              else live platform t e j))
  unfolding incr
  incr_views = steps platform key sampler now (increment) e h free

  pub decr_views :
      ((decr platform sampler now key e).1
        ≡ stepped (decrement) (number_of (live platform now e key.chars)))
      × ((t : ℕ) (j : Bytes)
          → now ≤ t
          → live platform t (decr platform sampler now key e).0 j ≡ (
              if bytes_eq key.chars j
              then after_step
                  (decrement)
                  t
                  (number_of (live platform now e key.chars))
                  (live platform t e key.chars)
              else live platform t e j))
  unfolding decr
  decr_views = steps platform key sampler now (decrement) e h free

module _ (platform : Platform) (key : CppString) (sampler : Sampler) (now : ℕ) (e : Engine)
    (h : HasShards e) (free : e.max_memory_bytes ≡ 0) (t : ℕ) (j : Bytes) (later : now ≤ t) where
  pub incr-live :
      ((incr platform sampler now key e).1
        ≡ stepped increment (number_of (live platform now e key.chars)))
      × (live platform t (incr platform sampler now key e).0 j ≡ (
          if bytes_eq key.chars j
          then after_step increment t
              (number_of (live platform now e key.chars))
              (live platform t e key.chars)
          else live platform t e j))
  incr-live =
      let (value', seen) = incr_views platform key sampler now e h free in (value', seen t j later)

  -- DECR, in an engine with a shard and no memory limit, does the same with the number minus one,
  -- -1 for a key that is not live.
  pub decr-live :
      ((decr platform sampler now key e).1
        ≡ stepped decrement (number_of (live platform now e key.chars)))
      × (live platform t (decr platform sampler now key e).0 j ≡ (
          if bytes_eq key.chars j
          then after_step decrement t
              (number_of (live platform now e key.chars))
              (live platform t e key.chars)
          else live platform t e j))
  decr-live =
      let (value', seen) = decr_views platform key sampler now e h free in (value', seen t j later)
