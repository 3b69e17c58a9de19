-- ===== src/Storage/Deadlines.antt =====
-- EXPIRE, PEXPIREAT, TTL and PERSIST on the map of live keys (src/storage/StorageEngine.cpp).
use distributed_in_memory_ke.Prelude.{
  ℕ, ◌+◌, ◌-◌, ◌≤◌, ◌<◌, ◌≡◌, ◌∙◌, Bool, true, false, ◌&&◌, Bool-cases, Option, none, some, arith,
  if◌then◌else◌, Bytes, bytes_eq, bytes_eq_iff, bytes_eq_refl, length, Option-cases, inl, inr, ℤ,
  pos, negsuc, to_i64, to_u64, ltb, leb, ◌==◌, two63,
}
use distributed_in_memory_ke.Storage.Entry.{CppString, DictEntry, Platform, is_expired, add_size}
use distributed_in_memory_ke.Storage.Shards.{entry_at, length-erase_key, length-update_key}
use distributed_in_memory_ke.Storage.Evict.{Engine}
use distributed_in_memory_ke.Storage.Operations.{expire_to, expire, expire_at, pttl, persist}
use distributed_in_memory_ke.Storage.Live.{Visible, live, HasShards, live-drop, live-write}

-- A visible key with another deadline, as it is seen at a time.
abbrev pub with_deadline : ℕ → ℕ → Option Visible → Option Visible
with_deadline deadline t none = none
with_deadline deadline t (some (chars, _)) =
    if ltb 0 deadline && leb deadline t then none else some (chars, deadline)

abbrev pub is_visible : Option Visible → Bool
is_visible none = false
is_visible (some _) = true

abbrev pub has_deadline : Option Visible → Bool
has_deadline none = false
has_deadline (some (_, deadline)) = ltb 0 deadline

-- The answer of PTTL.
abbrev pub ttl_of : ℕ → Option Visible → ℤ
ttl_of now none = negsuc 1
ttl_of now (some (_, deadline)) = if ltb 0 deadline then to_i64 (deadline - now) else negsuc 0

module _ (platform : Platform) (now : ℕ) (key : CppString) (e : Engine) where
  -- A deadline is set exactly if the key is live, and only this key is touched.
  pub expire_to_views :
      (deadline : ℕ)
      → HasShards e
      → ((expire_to platform now key deadline e).1 ≡ is_visible (live platform now e key.chars))
        × ((t : ℕ) (j : Bytes)
            → now ≤ t
            → live platform t (expire_to platform now key deadline e).0 j ≡ (
                if bytes_eq key.chars j
                then with_deadline deadline t (live platform now e key.chars)
                else live platform t e j))
  unfolding expire_to
  expire_to_views deadline h = (
    ground arith,
    λ t j later. elim (Option-cases (entry_at platform e.shards key.chars)) [
      | inl missing ↦ rw (missing, expire_to) (ground (arith, missing, bytes_eq_iff key.chars j))
      | inr (entry, found) ↦
          rw (found, expire_to)
            (elim (Bool-cases (is_expired entry now)) [
              | inl old ↦ rw old (
                  live-drop platform key e h entry found now t j old later
                  ∙ gone t j later entry found old)
              | inr new ↦ rw new (
                  live-write platform key e h entry found
                    (record entry { expire_at_ms = deadline; last_access_ms = now }) t j)
            ])
    ],
  )
    where
      gone :
          (t : ℕ) (j : Bytes)
          → now ≤ t
          → (entry : DictEntry) → entry_at platform e.shards key.chars ≡ some entry
          → is_expired entry now ≡ true
          → live platform t e j ≡ (if bytes_eq key.chars j then none else live platform t e j)
      gone t j later entry found old = ground (arith, found, bytes_eq_iff key.chars j)

  -- PTTL answers from the live entry, and no client sees a difference afterwards.
  pub pttl_views :
      HasShards e
      → ((pttl platform now key e).1 ≡ ttl_of now (live platform now e key.chars))
        × ((t : ℕ) (j : Bytes)
            → now ≤ t
            → live platform t (pttl platform now key e).0 j ≡ live platform t e j)
  unfolding pttl
  pttl_views h = (
    ground arith,
    λ t j later. elim (Option-cases (entry_at platform e.shards key.chars)) [
      | inl missing ↦ rw (missing, pttl)
      | inr (entry, found) ↦
          rw (found, pttl)
            (elim (Bool-cases (ltb 0 entry.expire_at_ms)) [
              | inl timed ↦ rw timed (elim (Bool-cases (leb entry.expire_at_ms now)) [
                | inl old ↦
                    rw old (live-drop platform key e h entry found now t j (rw (timed, old)) later)
                | inr new ↦ rw new
              ])
              | inr free ↦ rw free
            ])
    ],
  )

  -- PERSIST removes the deadline of a live key that has one, and touches nothing else.
  pub persist_views :
      HasShards e
      → ((persist platform now key e).1 ≡ has_deadline (live platform now e key.chars))
        × ((t : ℕ) (j : Bytes)
            → now ≤ t
            → live platform t (persist platform now key e).0 j ≡ (
                if bytes_eq key.chars j
                then with_deadline 0 t (live platform now e key.chars)
                else live platform t e j))
  unfolding persist
  persist_views h = (
    ground arith,
    λ t j later. elim (Option-cases (entry_at platform e.shards key.chars)) [
      | inl missing ↦ rw (missing, persist) (ground (arith, missing, bytes_eq_iff key.chars j))
      | inr (entry, found) ↦
          rw (found, persist)
            (elim (Bool-cases (is_expired entry now)) [
              | inl old ↦ rw old (
                  live-drop platform key e h entry found now t j old later
                  ∙ ground (arith, found, bytes_eq_iff key.chars j))
              | inr new ↦ rw new (elim (Bool-cases (entry.expire_at_ms == 0)) [
                | inl free ↦ rw free (ground (arith, found, bytes_eq_iff key.chars j))
                | inr timed ↦ rw timed (
                    live-write platform key e h entry found
                      (record entry { expire_at_ms = 0; last_access_ms = now }) t j)
              ])
            ])
    ],
  )

  pub length-expire_to :
      (deadline : ℕ) → length (expire_to platform now key deadline e).0.shards ≡ length e.shards
  unfolding expire_to
  length-expire_to deadline = elim (Option-cases (entry_at platform e.shards key.chars)) [
    | inl missing ↦ rw (missing, expire_to)
    | inr (entry, found) ↦
        rw (found, expire_to)
          (elim (Bool-cases (is_expired entry now)) [
            | inl old ↦ rw old (length-erase_key platform key.chars e.shards)
            | inr new ↦ rw new (length-update_key platform key.chars _ e.shards)
          ])
  ]

deadline_exact :
    (now offset : ℕ) → now + offset < two63 → add_size now (to_u64 (pos offset)) ≡ now + offset
unfolding to_u64
deadline_exact now offset small = omega arith

ttl_value :
    (now offset t : ℕ) (value : Visible)
    → 0 < offset
    → now + offset < two63
    → ttl_of t (with_deadline (now + offset) t (some value))
      ≡ (if ltb t (now + offset) then pos (now + offset - t) else negsuc 1)
unfolding to_i64
ttl_value now offset t value positive small = ground arith

module _ (platform : Platform) (now : ℕ) (key : CppString) (e : Engine) where
  -- After EXPIRE, in an engine with a shard, of a live key by a positive offset with `now + offset`
  -- below 2 ^ 63, PTTL at the time of the call or any later time before the deadline answers the
  -- exact rest, and from the deadline on the key is gone.
  pub pttl-expire :
      (offset t : ℕ) (value : Visible)
      → HasShards e
      → live platform now e key.chars ≡ some value
      → 0 < offset
      → now + offset < two63
      → now ≤ t
      → (pttl platform t key (expire platform now key (pos offset) e).0).1
        ≡ (if ltb t (now + offset) then pos (now + offset - t) else negsuc 1)
  unfolding expire
  pttl-expire offset t value h alive positive small later =
      let deadline = add_size now (to_u64 (pos offset)) in
      let e' = (expire_to platform now key deadline e).0 in
      let h' : HasShards e' = rw (length-expire_to platform now key e deadline) h in
      let seen = (expire_to_views platform now key e deadline h).1 t key.chars later in
      rw ((pttl_views platform t key e' h').0, seen, bytes_eq_refl key.chars, alive)
        (rw (deadline_exact now offset small) (ttl_value now offset t value positive small))

module _ (platform : Platform) (now : ℕ) (key : CppString) (e : Engine) (h : HasShards e) (t : ℕ)
    (j : Bytes) (later : now ≤ t) where
  -- In an engine with a shard `expire` answers whether the key is live. If it is, it has the new
  -- deadline, `now + ms_offset` modulo 2 ^ 64, from the time of the call on; every other key keeps
  -- its value and its deadline.
  pub expire-live :
      (ms_offset : ℤ)
      → ((expire platform now key ms_offset e).1 ≡ is_visible (live platform now e key.chars))
        × (live platform t (expire platform now key ms_offset e).0 j ≡ (
            if bytes_eq key.chars j
            then with_deadline (add_size now (to_u64 ms_offset)) t (live platform now e key.chars)
            else live platform t e j))
  unfolding expire
  expire-live ms_offset =
      let (answer', seen) =
        expire_to_views platform now key e (add_size now (to_u64 ms_offset)) h in
      (answer', seen t j later)

  -- In an engine with a shard `expire_at` does the same with an absolute deadline; the deadline 0
  -- removes the key's deadline.
  pub expire_at-live :
      (absolute_ms : ℕ)
      → ((expire_at platform now key absolute_ms e).1 ≡ is_visible (live platform now e key.chars))
        × (live platform t (expire_at platform now key absolute_ms e).0 j ≡ (
            if bytes_eq key.chars j
            then with_deadline absolute_ms t (live platform now e key.chars)
            else live platform t e j))
  unfolding expire_at
  expire_at-live absolute_ms =
      let (answer', seen) = expire_to_views platform now key e absolute_ms h in
      (answer', seen t j later)

  -- In an engine with a shard `pttl` answers -2 for a key that is not live, -1 for one without a
  -- deadline, and else the rest of its time; no client sees a difference at the time of the call or
  -- later.
  pub pttl-live :
      ((pttl platform now key e).1 ≡ ttl_of now (live platform now e key.chars))
      × (live platform t (pttl platform now key e).0 j ≡ live platform t e j)
  pttl-live = let (answer', seen) = pttl_views platform now key e h in (answer', seen t j later)

  -- In an engine with a shard `persist` answers whether the key is live with a deadline. A live key
  -- has no deadline from the time of the call on; every other key keeps its value and its deadline.
  pub persist-live :
      ((persist platform now key e).1 ≡ has_deadline (live platform now e key.chars))
      × (live platform t (persist platform now key e).0 j ≡ (
          if bytes_eq key.chars j
          then with_deadline 0 t (live platform now e key.chars)
          else live platform t e j))
  persist-live =
      let (answer', seen) = persist_views platform now key e h in (answer', seen t j later)
