-- ===== src/Storage/Weight.antt =====
-- The memory that the entries of the shards take, by `entry_cost` (src/storage/StorageEngine.cpp), with
-- the capacities that their strings have.
use distributed_in_memory_ke.Prelude.{
  ℕ, zero, suc, ◌+◌, ◌%◌, ◌<◌, two64, ◌≡◌, ◌∙◌, ap, sym, refl, inl, inr, Bool-cases, none, some, [],
  ◌∷◌, arith, Bytes, bytes_eq, bytes_eq_sound, get_or, set, length,
}
use distributed_in_memory_ke.Storage.Entry.{DictEntry, Platform, sub_size, entry_cost}
use distributed_in_memory_ke.Storage.Dict.{Node, Dict, find, erase, update}
use distributed_in_memory_ke.Storage.Shards.{Shards}
use distributed_in_memory_ke.Storage.Unique.{IsUnique}

-- A cost is taken off an account.
pub taken : (t w w' c : ℕ) → t ≡ w % two64 → w' + c ≡ w → c < two64 → sub_size t c ≡ w' % two64
taken t w w' c account level small = omega arith

module _ (platform : Platform) where
  abbrev pub weight : Dict → ℕ
  weight [] = 0
  weight ((k, entry) ∷ d) = entry_cost platform k entry.value + weight d

  abbrev pub total_weight : Shards → ℕ
  total_weight [] = 0
  total_weight (d ∷ shards) = weight d + total_weight shards

  pub total_weight-set :
      (shards : Shards) (i : ℕ) (d : Dict)
      → i < length shards
      → total_weight (set shards i d) + weight (get_or shards i []) ≡ total_weight shards + weight d
  total_weight-set [] i d h = absurd (omega arith)
  total_weight-set (x ∷ shards) zero d h = omega arith
  total_weight-set (x ∷ shards) (suc i) d h =
      omega (arith, total_weight-set shards i d (omega arith))

  weight-erase_missing : (key : Bytes) (d : Dict) → find key d ≡ none → erase key d ≡ d
  unfolding find erase
  weight-erase_missing key [] h = refl
  weight-erase_missing key ((k, entry) ∷ d) h = elim (Bool-cases (bytes_eq k.chars key)) [
    | inl same ↦ cc (rw same at h)
    | inr other ↦ rw other (ap (λ t. (k, entry) ∷ t) (weight-erase_missing key d (rw other at h)))
  ]

  pub weight-erase :
      (key : Bytes) (d : Dict) (node : Node)
      → IsUnique d
      → find key d ≡ some node
      → weight (erase key d) + entry_cost platform node.0 node.1.value ≡ weight d
  unfolding find erase
  weight-erase key [] node u found = cc
  weight-erase key ((k, entry) ∷ d) node u found = elim (Bool-cases (bytes_eq k.chars key)) [
    | inl same ↦
        let e : (k, entry) ≡ node = cc (rw same at found) in
        let here : find key d ≡ none =
          ap (λ j. find j d) (sym (bytes_eq_sound k.chars key same)) ∙ u.0 in
        rw (← e, same, weight-erase_missing key d here) (omega arith)
    | inr other ↦ rw other (omega (arith, weight-erase key d node u.1 (rw other at found)))
  ]

  pub weight-update :
      (key : Bytes) (new : DictEntry) (d : Dict) (node : Node)
      → find key d ≡ some node
      → weight (update key new d) + entry_cost platform node.0 node.1.value
        ≡ weight d + entry_cost platform node.0 new.value
  unfolding find update
  weight-update key new [] node found = cc
  weight-update key new ((k, entry) ∷ d) node found = elim (Bool-cases (bytes_eq k.chars key)) [
    | inl same ↦ let e : (k, entry) ≡ node = cc (rw same at found) in rw (← e, same) (omega arith)
    | inr other ↦ rw other (omega (arith, weight-update key new d node (rw other at found)))
  ]
