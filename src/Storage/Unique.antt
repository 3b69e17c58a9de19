-- ===== src/Storage/Unique.antt =====
-- Dictionaries in which no key stands twice, as `std::unordered_map` promises
-- (include/storage/StorageEngine.h).
use distributed_in_memory_ke.Prelude.{
  ℕ, zero, suc, ◌≡◌, ◌∙◌, refl, Bool, false, Option, none, some, [], ◌∷◌, arith, inl, inr,
  Bool-cases, if◌then◌else◌, Bytes, bytes_eq, bytes_eq_iff, get_or, set,
}
use distributed_in_memory_ke.Storage.Entry.{CppString, DictEntry, Platform}
use distributed_in_memory_ke.Storage.Dict.{
  Node, Dict, find, erase, update, entry_of, find-erase, find-update_ne,
}
use distributed_in_memory_ke.Storage.Shards.{
  Shards, get_shard_index, shard_of, write_shard, entry_at, erase_key, update_key, insert_key,
}

-- No key stands twice in a dictionary.
abbrev pub IsUnique : Dict → Type 0
IsUnique [] = Unit {0}
IsUnique ((k, entry) ∷ d) = (find k.chars d ≡ none) × IsUnique d

abbrev pub AreUnique : Shards → Type 0
AreUnique [] = Unit {0}
AreUnique (d ∷ shards) = IsUnique d × AreUnique shards

none_either {ℓ} : {A : Type ℓ} (b : Bool) (o : Option A) → o ≡ none → (if b then none else o) ≡ none
none_either b o h = ground arith

no_entry : (o : Option Node) → entry_of o ≡ none → o ≡ none
no_entry none h = refl
no_entry (some (k, entry)) h = cc

erase-IsUnique : (key : Bytes) (d : Dict) → IsUnique d → IsUnique (erase key d)
unfolding erase
erase-IsUnique key [] u = tt
erase-IsUnique key ((k, entry) ∷ d) u = elim (Bool-cases (bytes_eq k.chars key)) [
  | inl same ↦ rw same (erase-IsUnique key d u.1)
  | inr other ↦ rw other (
      (
        find-erase key k.chars d ∙ none_either (bytes_eq key k.chars) (find k.chars d) u.0,
        erase-IsUnique key d u.1,
      ))
]

update-IsUnique :
    (key : Bytes) (new : DictEntry) (d : Dict) → IsUnique d → IsUnique (update key new d)
unfolding update
update-IsUnique key new [] u = tt
update-IsUnique key new ((k, entry) ∷ d) u = elim (Bool-cases (bytes_eq k.chars key)) [
  | inl same ↦ rw same u
  | inr other ↦
      let apart : bytes_eq key k.chars ≡ false =
        ground (arith, bytes_eq_iff key k.chars, bytes_eq_iff k.chars key) in
      rw other ((find-update_ne key k.chars new d apart ∙ u.0, update-IsUnique key new d u.1))
]

AreUnique-get_or : (shards : Shards) (i : ℕ) → AreUnique shards → IsUnique (get_or shards i [])
AreUnique-get_or [] i u = tt
AreUnique-get_or (d ∷ shards) zero u = u.0
AreUnique-get_or (d ∷ shards) (suc i) u = AreUnique-get_or shards i u.1

set-AreUnique :
    (shards : Shards) (i : ℕ) (d : Dict)
    → AreUnique shards
    → IsUnique d
    → AreUnique (set shards i d)
set-AreUnique [] i d u v = tt
set-AreUnique (d' ∷ shards) zero d u v = (v, u.1)
set-AreUnique (d' ∷ shards) (suc i) d u v = (u.0, set-AreUnique shards i d u.1 v)

module _ (platform : Platform) (shards : Shards) (u : AreUnique shards) where
  pub write_shard-AreUnique :
      (key : Bytes) (d : Dict) → IsUnique d → AreUnique (write_shard platform shards key d)
  write_shard-AreUnique key d v = set-AreUnique shards (get_shard_index platform shards key) d u v

  pub shard_of-IsUnique : (key : Bytes) → IsUnique (shard_of platform shards key)
  shard_of-IsUnique key = AreUnique-get_or shards (get_shard_index platform shards key) u

  pub erase_at-AreUnique :
      (key k : Bytes)
      → AreUnique (write_shard platform shards key (erase k (shard_of platform shards key)))
  erase_at-AreUnique key k =
      write_shard-AreUnique key _
        (erase-IsUnique k (shard_of platform shards key) (shard_of-IsUnique key))

  pub erase_key-AreUnique : (key : Bytes) → AreUnique (erase_key platform key shards)
  unfolding erase_key
  erase_key-AreUnique key = erase_at-AreUnique key key

  pub update_key-AreUnique :
      (key : Bytes) (new : DictEntry) → AreUnique (update_key platform key new shards)
  unfolding update_key
  update_key-AreUnique key new =
      write_shard-AreUnique key _
        (update-IsUnique key new (shard_of platform shards key) (shard_of-IsUnique key))

  pub insert_key-AreUnique :
      (key : CppString) (new : DictEntry)
      → entry_at platform shards key.chars ≡ none
      → AreUnique (insert_key platform key new shards)
  unfolding insert_key entry_at
  insert_key-AreUnique key new missing = write_shard-AreUnique key.chars _ (
    rw (platform.copy_chars key)
        (no_entry (find key.chars (shard_of platform shards key.chars)) missing),
    shard_of-IsUnique key.chars,
  )
