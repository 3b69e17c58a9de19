-- ===== src/Storage/Reads.antt =====
-- GET and EXISTS on the map of live keys (src/storage/StorageEngine.cpp).
use distributed_in_memory_ke.Prelude.{
  ℕ, ◌+◌, ◌≤◌, ◌≡◌, refl, ◌∙◌, Bool, true, false, Bool-cases, Option, none, some, List, [], ◌∷◌,
  arith, if◌then◌else◌, Bytes, length, Option-cases, inl, inr,
}
use distributed_in_memory_ke.Storage.Entry.{CppString, Platform, is_expired, add_size}
use distributed_in_memory_ke.Storage.Shards.{entry_at, length-erase_key, length-update_key}
use distributed_in_memory_ke.Storage.Evict.{Engine}
use distributed_in_memory_ke.Storage.Operations.{get, exists_key, exists}
use distributed_in_memory_ke.Storage.Live.{Visible, live, HasShards, live-drop, live-touch}

abbrev pub value_of : Option Visible → Option Bytes
value_of none = none
value_of (some (chars, _)) = some chars

abbrev pub is_live : Option Visible → ℕ
is_live none = 0
is_live (some _) = 1

abbrev pub has_value : Option Bytes → Bool
has_value none = false
has_value (some _) = true

module _ (platform : Platform) (now : ℕ) (key : CppString) (e : Engine) where
  -- The shards stay as many as they are.
  pub length-get : length (get platform now key e).0.shards ≡ length e.shards
  unfolding get
  length-get = elim (Option-cases (entry_at platform e.shards key.chars)) [
    | inl missing ↦ rw (missing, get)
    | inr (entry, found) ↦
        rw (found, get)
          (elim (Bool-cases (is_expired entry now)) [
            | inl old ↦ rw old (length-erase_key platform key.chars e.shards)
            | inr new ↦ rw new (length-update_key platform key.chars _ e.shards)
          ])
  ]

  pub length-exists_key : length (exists_key platform now key e).0.shards ≡ length e.shards
  unfolding exists_key
  length-exists_key = elim (Option-cases (entry_at platform e.shards key.chars)) [
    | inl missing ↦ rw (missing, exists_key)
    | inr (entry, found) ↦
        rw (found, exists_key)
          (elim (Bool-cases (is_expired entry now)) [
            | inl old ↦ rw old (length-erase_key platform key.chars e.shards)
            | inr new ↦ rw new (length-update_key platform key.chars _ e.shards)
          ])
  ]

  -- GET returns the value of the live entry, and no client sees a difference afterwards: at the
  -- time of the call and later every key has the value and the deadline that it had.
  pub get_views :
      HasShards e
      → ((get platform now key e).1 ≡ value_of (live platform now e key.chars))
        × ((t : ℕ) (j : Bytes)
            → now ≤ t
            → live platform t (get platform now key e).0 j ≡ live platform t e j)
  unfolding get
  get_views h = (
    ground arith,
    λ t j later. elim (Option-cases (entry_at platform e.shards key.chars)) [
      | inl missing ↦ rw (missing, get)
      | inr (entry, found) ↦
          rw (found, get)
            (elim (Bool-cases (is_expired entry now)) [
              | inl old ↦ rw old (live-drop platform key e h entry found now t j old later)
              | inr new ↦ rw new (live-touch platform key e h entry found now t j)
            ])
    ],
  )

  exists_key_views :
      HasShards e
      → ((exists_key platform now key e).1 ≡ is_live (live platform now e key.chars))
        × ((t : ℕ) (j : Bytes)
            → now ≤ t
            → live platform t (exists_key platform now key e).0 j ≡ live platform t e j)
  unfolding exists_key
  exists_key_views h = (
    ground arith,
    λ t j later. elim (Option-cases (entry_at platform e.shards key.chars)) [
      | inl missing ↦ rw (missing, exists_key)
      | inr (entry, found) ↦
          rw (found, exists_key)
            (elim (Bool-cases (is_expired entry now)) [
              | inl old ↦ rw old (live-drop platform key e h entry found now t j old later)
              | inr new ↦ rw new (live-touch platform key e h entry found now t j)
            ])
    ],
  )

  -- A call of GET is counted once, as a hit exactly when it returns a value, as a miss otherwise.
  pub get_statistics :
      ((get platform now key e).0.keyspace_hits ≡ (
        if has_value (get platform now key e).1
        then add_size e.keyspace_hits 1
        else e.keyspace_hits))
      × ((get platform now key e).0.keyspace_misses ≡ (
          if has_value (get platform now key e).1
          then e.keyspace_misses
          else add_size e.keyspace_misses 1))
  unfolding get
  get_statistics = ground arith

-- The keys of a list that are live, each as often as it stands there.
abbrev pub count_live : Platform → ℕ → Engine → List CppString → ℕ
count_live platform now e [] = 0
count_live platform now e (key ∷ keys) =
    is_live (live platform now e key.chars) + count_live platform now e keys

module _ (platform : Platform) (now : ℕ) where
  count_live-same :
      (e e' : Engine) (keys : List CppString)
      → ((j : Bytes) → live platform now e' j ≡ live platform now e j)
      → count_live platform now e' keys ≡ count_live platform now e keys
  count_live-same e e' [] same = refl
  count_live-same e e' (key ∷ keys) same = rw (same key.chars, count_live-same e e' keys same)

  -- EXISTS returns how many of its arguments are live, an argument that is repeated counted again,
  -- and no client sees a difference afterwards.
  pub exists_views :
      (keys : List CppString) (e : Engine)
      → HasShards e
      → ((exists platform now keys e).1 ≡ count_live platform now e keys)
        × ((t : ℕ) (j : Bytes)
            → now ≤ t
            → live platform t (exists platform now keys e).0 j ≡ live platform t e j)
  unfolding exists
  exists_views [] e h = (refl, λ t j later. refl)
  exists_views (key ∷ keys) e h =
      let e' = (exists_key platform now key e).0 in
      let (found, same) = exists_key_views platform now key e h in
      let h' : HasShards e' = rw (length-exists_key platform now key e) h in
      let (more, same') = exists_views keys e' h' in
      (
        rw (found, more, count_live-same e e' keys (λ j. same now j (omega arith))),
        λ t j later. same' t j later ∙ same t j later,
      )

module _ (platform : Platform) (now : ℕ) (e : Engine) (h : HasShards e) (t : ℕ) (j : Bytes)
    (later : now ≤ t) where
  -- In an engine with a shard GET returns the value of the live entry, and no client sees a
  -- difference afterwards: at the time of the call and at any later one every key has the value and
  -- the deadline that it had.
  pub get-live :
      (key : CppString)
      → ((get platform now key e).1 ≡ value_of (live platform now e key.chars))
        × (live platform t (get platform now key e).0 j ≡ live platform t e j)
  get-live key = let (value', same) = get_views platform now key e h in (value', same t j later)

  -- In an engine with a shard EXISTS returns how many of its arguments are live, an argument that
  -- is repeated counted again, and no client sees a difference at the time of the call or later.
  pub exists-live :
      (keys : List CppString)
      → ((exists platform now keys e).1 ≡ count_live platform now e keys)
        × (live platform t (exists platform now keys e).0 j ≡ live platform t e j)
  exists-live keys =
      let (count, same) = exists_views platform now keys e h in (count, same t j later)
