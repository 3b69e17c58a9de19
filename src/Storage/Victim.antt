-- ===== src/Storage/Victim.antt =====
-- The choice of a victim by `evict_from_shard` (src/storage/StorageEngine.cpp): five samples and a
-- fallback.
use distributed_in_memory_ke.Prelude.{
  ℕ, zero, suc, ◌+◌, ◌≤◌, ◌<◌, ◌≡◌, ◌⊎◌, ◌∙◌, ap, sym, refl, Option, none, some, [], ◌∷◌, arith,
  Bytes, bytes_eq, bytes_eq_refl, bytes_eq_sound, ltb, Bool-cases, Option-cases, inl, inr,
}
use native.Mathlib.Nat.{zero-add}
use distributed_in_memory_ke.Storage.Entry.{CppString, DictEntry}
use distributed_in_memory_ke.Storage.Dict.{Node, Dict, find}
use distributed_in_memory_ke.Storage.Evict.{
  Sampler, Best, max_u64, keep_older, sample_node, sample_loop, first_node, or_first, victim,
}

-- The node stands in the dictionary, under its own key.
abbrev pub IsNodeOf : Dict → Option Node → Type 0
IsNodeOf d none = Unit {0}
IsNodeOf d (some (k, entry)) = find k.chars d ≡ some (k, entry)

head-IsNodeOf : (node : Node) (d : Dict) → IsNodeOf (node ∷ d) (some node)
unfolding find
head-IsNodeOf (k, entry) d = rw (bytes_eq_refl k.chars) refl

find-chars :
    (key : Bytes) (d : Dict) (k : CppString) (entry : DictEntry)
    → find key d ≡ some (k, entry)
    → k.chars ≡ key
unfolding find
find-chars key [] k entry found = cc
find-chars key ((k', entry') ∷ d) k entry found = elim (Bool-cases (bytes_eq k'.chars key)) [
  | inl same ↦
      let e : k' ≡ k = cc (rw same at found) in
      ap (λ s. s.chars) (sym e) ∙ bytes_eq_sound k'.chars key same
  | inr other ↦ find-chars key d k entry (rw other at found)
]

found-IsNodeOf :
    (key : Bytes) (d : Dict) (found : Option Node) → find key d ≡ found → IsNodeOf d found
found-IsNodeOf key d none h = tt
found-IsNodeOf key d (some (k, entry)) h = ap (λ j. find j d) (find-chars key d k entry h) ∙ h

find-IsNodeOf : (key : Bytes) (d : Dict) → IsNodeOf d (find key d)
find-IsNodeOf key d = found-IsNodeOf key d (find key d) refl

sample_node-IsNodeOf : (key : Option Bytes) (d : Dict) → IsNodeOf d (sample_node key d)
unfolding sample_node
sample_node-IsNodeOf none d = tt
sample_node-IsNodeOf (some key) d = find-IsNodeOf key d

keep_older-IsNodeOf :
    (d : Dict) (best : Best) (node : Option Node)
    → IsNodeOf d best.0
    → IsNodeOf d node
    → IsNodeOf d (keep_older best node).0
unfolding keep_older
keep_older-IsNodeOf d best none h k = h
keep_older-IsNodeOf d (old, oldest) (some (k, entry)) h n =
    elim (Bool-cases (ltb entry.last_access_ms oldest)) [
      | inl older ↦ rw older n
      | inr newer ↦ rw newer h
    ]

-- The age that the loop has kept is that of the node that it has kept, or the first one.
abbrev HasAge : Best → Type 0
HasAge (none, oldest) = oldest ≡ max_u64
HasAge (some (k, entry), oldest) = entry.last_access_ms ≡ oldest

abbrev NotOlder : ℕ → Option Node → Type 0
NotOlder oldest none = Unit {0}
NotOlder oldest (some (k, entry)) = oldest ≤ entry.last_access_ms

keep_older-age :
    (best : Best) (node : Option Node)
    → HasAge best
    → HasAge (keep_older best node)
      × ((keep_older best node).1 ≤ best.1)
      × NotOlder (keep_older best node).1 node
unfolding keep_older
keep_older-age best none h = (h, omega arith, tt)
keep_older-age (old, oldest) (some (k, entry)) h =
    elim (Bool-cases (ltb entry.last_access_ms oldest)) [
      | inl older ↦ rw older (refl, ground arith, omega arith)
      | inr newer ↦ rw newer (h, omega arith, ground arith)
    ]

NotOlder-le :
    {oldest : ℕ} (age : ℕ) (found : Option Node)
    → NotOlder age found
    → oldest ≤ age
    → NotOlder oldest found
NotOlder-le age none h le = tt
NotOlder-le age (some (k, entry)) h le = omega arith

suc-add_suc : (m i : ℕ) → suc m + i ≡ m + suc i
suc-add_suc m i = omega arith

-- What is kept is what is evicted, unless every sample missed.
kept_age :
    (best : Best) (d : Dict) (k : CppString) (entry entry' : DictEntry)
    → HasAge best
    → best.1 ≤ entry'.last_access_ms
    → entry'.last_access_ms < max_u64
    → or_first d best.0 ≡ some (k, entry)
    → entry.last_access_ms ≤ entry'.last_access_ms
kept_age (none, oldest) d k entry entry' age bound real chosen = absurd (omega arith)
kept_age (some (j, kept), oldest) d k entry entry' age bound real chosen =
    let same : kept ≡ entry = cc in rw (← same) (rw age bound)

kept_some :
    (best : Best) (d : Dict) (k : CppString) (entry entry' : DictEntry)
    → HasAge best
    → best.1 ≤ entry'.last_access_ms
    → entry'.last_access_ms < max_u64
    → or_first d best.0 ≡ some (k, entry)
    → best.0 ≡ some (k, entry)
kept_some (none, oldest) d k entry entry' age bound real chosen = absurd (omega arith)
kept_some (some node, oldest) d k entry entry' age bound real chosen = chosen

module _ (sampler : Sampler) where
  sample_loop-IsNodeOf :
      (n i : ℕ) (d : Dict) (best : Best)
      → IsNodeOf d best.0
      → IsNodeOf d (sample_loop sampler n i d best).0
  unfolding sample_loop
  sample_loop-IsNodeOf zero i d best h = h
  sample_loop-IsNodeOf (suc n) i d best h =
      sample_loop-IsNodeOf n (suc i) d _
        (keep_older-IsNodeOf d best _ h (sample_node-IsNodeOf (sampler i d) d))

  first_node-IsNodeOf : (d : Dict) → IsNodeOf d (first_node d)
  first_node-IsNodeOf [] = tt
  first_node-IsNodeOf (node ∷ d) = head-IsNodeOf node d

  or_first-IsNodeOf :
      (d : Dict) (found : Option Node) → IsNodeOf d found → IsNodeOf d (or_first d found)
  or_first-IsNodeOf d none h = first_node-IsNodeOf d
  or_first-IsNodeOf d (some node) h = h

  -- The victim stands in the dictionary.
  pub victim-IsNodeOf : (i : ℕ) (d : Dict) → IsNodeOf d (victim sampler i d)
  unfolding victim
  victim-IsNodeOf i d = or_first-IsNodeOf d _ (sample_loop-IsNodeOf 5 i d (none, max_u64) tt)

  -- There is a victim unless the dictionary is empty.
  pub victim-none : (i : ℕ) (d : Dict) → victim sampler i d ≡ none → d ≡ []
  unfolding victim
  victim-none i [] h = refl
  victim-none i (node ∷ d) h =
      elim (Option-cases (sample_loop sampler 5 i (node ∷ d) (none, max_u64)).0) [
        | inl missed ↦ absurd (cc (rw (missed, or_first) at h))
        | inr (found, sampled) ↦ absurd (cc (rw (sampled, or_first) at h))
      ]

  -- What the loop keeps is no younger than any of its samples.
  sample_loop-age :
      (n i m : ℕ) (d : Dict) (best : Best)
      → HasAge best
      → HasAge (sample_loop sampler n i d best)
        × ((sample_loop sampler n i d best).1 ≤ best.1)
        × (m < n → NotOlder (sample_loop sampler n i d best).1 (sample_node (sampler (m + i) d) d))
  unfolding sample_loop
  sample_loop-age zero i m d best h = (h, omega arith, λ lt. absurd (omega arith))
  sample_loop-age (suc n) i zero d best h =
      let node = sample_node (sampler i d) d in
      let (age, le, sampled) = keep_older-age best node h in
      let (age', le', _) = sample_loop-age n (suc i) zero d (keep_older best node) age in
      (age', omega arith, λ lt. rw zero-add (NotOlder-le (keep_older best node).1 node sampled le'))
  sample_loop-age (suc n) i (suc m) d best h =
      let node = sample_node (sampler i d) d in
      let (age, le, sampled) = keep_older-age best node h in
      let (age', le', rest) = sample_loop-age n (suc i) m d (keep_older best node) age in
      (age', omega arith, λ lt. rw (suc-add_suc m i) (rest (omega arith)))

  keep_older-kept :
      (best : Best) (node : Option Node)
      → ((keep_older best node).0 ≡ node) ⊎ ((keep_older best node).0 ≡ best.0)
  unfolding keep_older
  keep_older-kept best none = inr refl
  keep_older-kept (old, oldest) (some (k, entry)) =
      elim (Bool-cases (ltb entry.last_access_ms oldest)) [
        | inl older ↦ inl (rw older refl)
        | inr newer ↦ inr (rw newer refl)
      ]

  -- What the loop keeps is one of its samples, or what it started with.
  sample_loop-kept :
      (n i : ℕ) (d : Dict) (best : Best)
      → ((m : ℕ) × (m < n)
          × (sample_node (sampler (m + i) d) d ≡ (sample_loop sampler n i d best).0))
        ⊎ ((sample_loop sampler n i d best).0 ≡ best.0)
  unfolding sample_loop
  sample_loop-kept zero i d best = inr refl
  sample_loop-kept (suc n) i d best =
      let node = sample_node (sampler i d) d in
      elim (sample_loop-kept n (suc i) d (keep_older best node)) [
        | inl (m, lt, same) ↦ inl (suc m, omega arith, rw (suc-add_suc m i) same)
        | inr same ↦ elim (keep_older-kept best node) [
          | inl this ↦ inl (zero, omega arith, rw zero-add (sym (same ∙ this)))
          | inr before ↦ inr (same ∙ before)
        ]
      ]

  -- The victim is the least recently used of the five samples: where one of them has hit a node
  -- with a time of access below 2 ^ 64 - 1, which the loop can tell from its start value, the
  -- victim was not accessed after this node, and it is what one of the five samples has hit.
  pub victim-oldest :
      (i m : ℕ) (d : Dict) (k k' : CppString) (entry entry' : DictEntry)
      → victim sampler i d ≡ some (k, entry)
      → m < 5
      → sample_node (sampler (m + i) d) d ≡ some (k', entry')
      → entry'.last_access_ms < max_u64
      → (entry.last_access_ms ≤ entry'.last_access_ms)
        × ((n : ℕ) × (n < 5) × (sample_node (sampler (n + i) d) d ≡ some (k, entry)))
  unfolding victim
  victim-oldest i m d k k' entry entry' chosen lt sampled real =
      let (age, le, older) = sample_loop-age 5 i m d (none, max_u64) refl in
      let bound : (sample_loop sampler 5 i d (none, max_u64)).1 ≤ entry'.last_access_ms =
        rw sampled at (older lt) in
      let kept = sample_loop sampler 5 i d (none, max_u64) in
      let here = kept_some kept d k entry entry' age bound real chosen in
      (
        kept_age kept d k entry entry' age bound real chosen,
        elim (sample_loop-kept 5 i d (none, max_u64)) [
          | inl (n, lt', same) ↦ (n, lt', same ∙ here)
          | inr nothing ↦ cc
        ],
      )
