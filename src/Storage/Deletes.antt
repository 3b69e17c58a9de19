-- ===== src/Storage/Deletes.antt =====
-- DEL on the map of keys (src/storage/StorageEngine.cpp).
use distributed_in_memory_ke.Prelude.{
  ℕ, ◌+◌, ◌^◌, ◌≤◌, ◌<◌, ◌≡◌, ap, sym, refl, ◌∙◌, bytes_eq_sound, Bool-cases, Bool, true, false,
  ◌||◌, Option, none, some, List, [], ◌∷◌, arith, if◌then◌else◌, Bytes, bytes_eq, bytes_eq_iff,
  length, Option-cases, inl, inr,
}
use distributed_in_memory_ke.Storage.Entry.{CppString, DictEntry, Platform}
use distributed_in_memory_ke.Storage.Shards.{entry_at, entry_at-erase, length-erase_key}
use distributed_in_memory_ke.Storage.Evict.{Engine}
use distributed_in_memory_ke.Storage.Operations.{del_key, del}
use distributed_in_memory_ke.Storage.Live.{HasShards}

abbrev pub has_entry : Option DictEntry → Bool
has_entry none = false
has_entry (some _) = true

abbrev pub is_listed : List CppString → Bytes → Bool
is_listed [] j = false
is_listed (key ∷ keys) j = bytes_eq key.chars j || is_listed keys j

-- The different keys of a list that belong to a set.
abbrev pub count_distinct : (Bytes → Bool) → List CppString → ℕ
count_distinct present [] = 0
count_distinct present (key ∷ keys) =
    (if present key.chars then 1 else 0)
    + count_distinct (λ j. if bytes_eq key.chars j then false else present j) keys

count_distinct-le :
    (present : Bytes → Bool) (keys : List CppString) → count_distinct present keys ≤ length keys
count_distinct-le present [] = omega arith
count_distinct-le present (key ∷ keys) =
    let rest = count_distinct-le (λ j. if bytes_eq key.chars j then false else present j) keys in
    elim (Bool-cases (present key.chars)) [
      | inl is ↦ rw is (omega (arith, rest))
      | inr other ↦ rw other (omega (arith, rest))
    ]

count_distinct-same :
    (keys : List CppString) (p q : Bytes → Bool)
    → ((j : Bytes) → p j ≡ q j)
    → count_distinct p keys ≡ count_distinct q keys
count_distinct-same [] p q same = refl
count_distinct-same (key ∷ keys) p q same = rw (
  same key.chars,
  count_distinct-same keys (λ j. if bytes_eq key.chars j then false else p j)
      (λ j. if bytes_eq key.chars j then false else q j)
      (λ j. ap (λ b. if bytes_eq key.chars j then false else b) (same j)),
)

has_entry-if :
    (b : Bool) (entry : Option DictEntry)
    → has_entry (if b then none else entry) ≡ (if b then false else has_entry entry)
has_entry-if true entry = refl
has_entry-if false entry = refl

module _ (platform : Platform) where
  abbrev pub present : Engine → Bytes → Bool
  present e j = has_entry (entry_at platform e.shards j)

  module _ (key : CppString) (e : Engine) where
    length-del_key : length (del_key platform key e).0.shards ≡ length e.shards
    unfolding del_key
    length-del_key = elim (Option-cases (entry_at platform e.shards key.chars)) [
      | inl missing ↦ rw (missing, del_key)
      | inr (entry, found) ↦ rw (found, del_key) (length-erase_key platform key.chars e.shards)
    ]

    entry_at-del_key :
        HasShards e
        → (j : Bytes)
        → entry_at platform (del_key platform key e).0.shards j
          ≡ (if bytes_eq key.chars j then none else entry_at platform e.shards j)
    unfolding del_key
    entry_at-del_key h j = elim (Option-cases (entry_at platform e.shards key.chars)) [
      | inl missing ↦ rw (missing, del_key) (ground (arith, missing, bytes_eq_iff key.chars j))
      | inr (entry, found) ↦ rw (found, del_key) (entry_at-erase platform e.shards h key.chars j)
    ]

    del_key-count : (del_key platform key e).1 ≡ (if present e key.chars then 1 else 0)
    unfolding del_key
    del_key-count = ground arith

  -- In an engine with a shard DEL removes the entries of its arguments and keeps every other entry
  -- as it is.
  pub entry_at-del :
      (keys : List CppString) (e : Engine) (j : Bytes)
      → HasShards e
      → entry_at platform (del platform keys e).0.shards j
        ≡ (if is_listed keys j then none else entry_at platform e.shards j)
  unfolding del
  entry_at-del [] e j h = refl
  entry_at-del (key ∷ keys) e j h =
      let e' = (del_key platform key e).0 in
      let h' : HasShards e' = rw (length-del_key key e) h in
      entry_at-del keys e' j h' ∙ ground (arith, entry_at-del_key key e h j)

  -- What DEL returns, whatever the number of keys.
  del-count_lem :
      (keys : List CppString) (e : Engine)
      → HasShards e
      → (del platform keys e).1 ≡ count_distinct (present e) keys
  unfolding del
  del-count_lem [] e h = refl
  del-count_lem (key ∷ keys) e h =
      let e' = (del_key platform key e).0 in
      let h' : HasShards e' = rw (length-del_key key e) h in
      let rest =
        count_distinct-same keys (present e')
          (λ j. if bytes_eq key.chars j then false else present e j)
          (λ j.
            ap has_entry (entry_at-del_key key e h j)
            ∙ has_entry-if (bytes_eq key.chars j) (entry_at platform e.shards j)) in
      rw (del_key-count key e, del-count_lem keys e' h', rest)

  -- In an engine with a shard DEL returns how many different keys among its arguments had an entry,
  -- expired ones included, and this number is an `int`. DEL is given fewer than 2 ^ 31 keys.
  pub del-count :
      (keys : List CppString) (e : Engine)
      → HasShards e
      → length keys < 2 ^ 31
      → ((del platform keys e).1 ≡ count_distinct (present e) keys)
        × ((del platform keys e).1 < 2 ^ 31)
  del-count keys e h few =
      let count = del-count_lem keys e h in
      (count, omega (arith, count, count_distinct-le (present e) keys))

-- If nothing is counted, no key of the list belongs to the set.
count_distinct-zero :
    (keys : List CppString) (p : Bytes → Bool) (j : Bytes)
    → count_distinct p keys ≡ 0
    → is_listed keys j ≡ true
    → p j ≡ false
count_distinct-zero [] p j z listed = cc
count_distinct-zero (key ∷ keys) p j z listed = elim (Bool-cases (bytes_eq key.chars j)) [
  | inl same ↦ rw (← bytes_eq_sound key.chars j same) (ground arith)
  | inr other ↦ rw other at (
      count_distinct-zero keys (λ i. if bytes_eq key.chars i then false else p i) j (ground arith)
        (rw other at listed))
]

no_entry : (found : Option DictEntry) → has_entry found ≡ false → found ≡ none
no_entry none h = refl
no_entry (some entry) h = cc

-- A DEL that deletes nothing leaves every entry as it is.
pub entry_at-del_none :
    (platform : Platform) (keys : List CppString) (e : Engine) (j : Bytes)
    → HasShards e
    → (del platform keys e).1 ≡ 0
    → entry_at platform (del platform keys e).0.shards j ≡ entry_at platform e.shards j
entry_at-del_none platform keys e j h zero' = elim (Bool-cases (is_listed keys j)) [
  | inl listed ↦
      let gone = no_entry (entry_at platform e.shards j) (
        count_distinct-zero keys (present platform e) j
          (sym (del-count_lem platform keys e h) ∙ zero') listed) in
      rw (entry_at-del platform keys e j h, listed, gone)
  | inr other ↦ rw (entry_at-del platform keys e j h, other)
]
