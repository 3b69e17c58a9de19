-- ===== src/Storage/Meaning.antt =====
-- The storage engine (src/storage/StorageEngine.cpp) as a map from keys to values, where no key has a
-- deadline.
use distributed_in_memory_ke.Prelude.{
  ℕ, zero, suc, ◌≤◌, ◌<◌, ◌≡◌, ◌∙◌, ap, refl, Bool, false, ◌||◌, Bool-cases, Option, none, some,
  Option-cases, inl, inr, if◌then◌else◌, List, [], ◌∷◌, arith, ℤ, pos, Bytes, bytes_eq, length,
}
use mathlib.Core.List.{map}
use distributed_in_memory_ke.Prelude.Lists.{get_or, length-set}
use distributed_in_memory_ke.Std.Decimal.{from_chars_i64, to_string_i64}
use distributed_in_memory_ke.Storage.Entry.{CppString, Platform}
use distributed_in_memory_ke.Storage.Shards.{
  Shards, get_shard_index, entry_at, length-erase_key, length-update_key, length-insert_key,
}
use distributed_in_memory_ke.Storage.Evict.{Engine, Sampler, no_shards, new_engine}
use distributed_in_memory_ke.Storage.Dict.{find}
use distributed_in_memory_ke.Storage.Live.{Visible, visible, live}
use distributed_in_memory_ke.Storage.Operations.{set, get, del, incr, decr, increment, decrement}
use distributed_in_memory_ke.Storage.NumberWrites.{whole, number_of, after_step}
use distributed_in_memory_ke.Storage.Writes.{set-live}
use distributed_in_memory_ke.Storage.Deletes.{is_listed, entry_at-del}
use distributed_in_memory_ke.Storage.Numbers.{incr_views, decr_views}
use distributed_in_memory_ke.Storage.Reads.{get_views}
use distributed_in_memory_ke.Storage.KeptOperations.{IsClosed}

-- The abstract state.
abbrev pub Contents : Type 0
Contents = Bytes → Option Bytes

abbrev pub timeless : Option Bytes → Option Visible
timeless none = none
timeless (some s) = some (s, 0)

pub timeless-injective : (o p : Option Bytes) → timeless o ≡ timeless p → o ≡ p
timeless-injective none none h = refl
timeless-injective none (some s) h = cc
timeless-injective (some s) none h = cc
timeless-injective (some s) (some t) h = cc

-- From a time on, an engine shows these contents, and no deadline.
abbrev pub Shows : Platform → ℕ → Engine → Contents → Type 0
Shows platform since e m = (t : ℕ) (j : Bytes) → since ≤ t → live platform t e j ≡ timeless (m j)

-- There is a shard and no limit.
abbrev pub Unbounded : Shards → ℕ → Type 0
Unbounded shards m = (0 < length shards) × (m ≡ 0)

pub Unbounded-IsClosed : (platform : Platform) → IsClosed platform Unbounded
Unbounded-IsClosed platform = record {
  erase_closed = λ key shards m u. (rw (length-erase_key platform key shards) u.0, u.1);
  erase_at_closed = λ key k shards m u. (rw (length-set shards _ _) u.0, u.1);
  update_closed = λ key new shards m u. (rw (length-update_key platform key new shards) u.0, u.1);
  insert_closed =
      λ key new shards m missing u. (rw (length-insert_key platform key new shards) u.0, u.1);
}

get_or-no_shards : (n i : ℕ) → get_or (no_shards n) i [] ≡ []
get_or-no_shards zero i = refl
get_or-no_shards (suc n) zero = refl
get_or-no_shards (suc n) (suc i) = get_or-no_shards n i

abbrev pub nothing_stored : Contents
nothing_stored j = none

-- A new engine shows nothing.
pub new_engine-Shows :
    (platform : Platform) (num_shards since : ℕ)
    → Shows platform since (new_engine num_shards) nothing_stored
unfolding entry_at find
new_engine-Shows platform num_shards since t j past =
    rw (get_or-no_shards num_shards (get_shard_index platform (no_shards num_shards) j)) refl

-- What the operations mean.
abbrev pub put : Bytes → Bytes → Contents → Contents
put k s m j = if bytes_eq k j then some s else m j

abbrev pub contains_key : List Bytes → Bytes → Bool
contains_key [] j = false
contains_key (k ∷ ks) j = bytes_eq k j || contains_key ks j

abbrev pub remove : List Bytes → Contents → Contents
remove ks m j = if contains_key ks j then none else m j

-- A value that is no `int64_t` to its last byte stays.
abbrev pub replaced : (ℤ → ℤ) → Bytes → Option ℤ → Bytes
replaced step s none = s
replaced step s (some val) = to_string_i64 (step val)

abbrev pub stepped_value : (ℤ → ℤ) → Option Bytes → Bytes
stepped_value step none = to_string_i64 (step (pos 0))
stepped_value step (some s) = replaced step s (whole (from_chars_i64 s))

abbrev pub bump : (ℤ → ℤ) → Bytes → Contents → Contents
bump step k m j = if bytes_eq k j then some (stepped_value step (m k)) else m j

module _ (platform : Platform) (since now : ℕ) (e : Engine) (m : Contents)
    (fine : Unbounded e.shards e.max_memory_bytes) (shows : Shows platform since e m)
    (later : since ≤ now) where
  pub set-Shows :
      (sampler : Sampler) (key value : CppString)
      → Shows platform now (set platform sampler now key value e).0 (put key.chars value.chars m)
  set-Shows sampler key value t j past =
      let written = (set-live platform key value now sampler e fine.0 (rw (fine.1) refl)).1 t j in
      written ∙ elim (Bool-cases (bytes_eq key.chars j)) [
        | inl same ↦ rw same refl
        | inr other ↦ rw other (shows t j (omega arith))
      ]

  pub get-Shows : (key : CppString) → Shows platform now (get platform now key e).0 m
  get-Shows key t j past =
      (get_views platform now key e fine.0).1 t j past ∙ shows t j (omega arith)

  is_listed-map :
      (ks : List Bytes) (j : Bytes) → is_listed (map platform.make ks) j ≡ contains_key ks j
  is_listed-map [] j = refl
  is_listed-map (k ∷ ks) j = rw (platform.make_chars k, is_listed-map ks j)

  pub del-Shows :
      (ks : List Bytes) → Shows platform now (del platform (map platform.make ks) e).0 (remove ks m)
  del-Shows ks t j past =
      ap (visible t) (entry_at-del platform (map platform.make ks) e j fine.0)
      ∙ rw (is_listed-map ks j) (elim (Bool-cases (contains_key ks j)) [
        | inl listed ↦ rw listed refl
        | inr other ↦ rw other (shows t j (omega arith))
      ])

  after_step-timeless :
      (step : ℤ → ℤ) (t : ℕ) (o : Option Bytes)
      → after_step step t (number_of (timeless o)) (timeless o) ≡ some (stepped_value step o, 0)
  after_step-timeless step t none = refl
  after_step-timeless step t (some s) = elim (Option-cases (whole (from_chars_i64 s))) [
    | inl refused ↦ rw refused refl
    | inr (val, read) ↦ rw read refl
  ]

  -- What the views of INCR and DECR come to.
  bump-Shows :
      (step : ℤ → ℤ) (k : Bytes) (t : ℕ) (j : Bytes)
      → now ≤ t
      → (if bytes_eq k j
          then after_step step t (number_of (live platform now e k)) (live platform t e k)
          else live platform t e j)
        ≡ timeless (bump step k m j)
  bump-Shows step k t j past = elim (Bool-cases (bytes_eq k j)) [
    | inl same ↦
        rw (same, shows now k later, shows t k (omega arith)) (after_step-timeless step t (m k))
    | inr other ↦ rw other (shows t j (omega arith))
  ]

  pub incr-Shows :
      (sampler : Sampler) (key : CppString)
      → Shows platform now (incr platform sampler now key e).0 (bump increment key.chars m)
  incr-Shows sampler key t j past =
      (incr_views platform key sampler now e fine.0 fine.1).1 t j past
      ∙ bump-Shows increment key.chars t j past

  pub decr-Shows :
      (sampler : Sampler) (key : CppString)
      → Shows platform now (decr platform sampler now key e).0 (bump decrement key.chars m)
  decr-Shows sampler key t j past =
      (decr_views platform key sampler now e fine.0 fine.1).1 t j past
      ∙ bump-Shows decrement key.chars t j past
