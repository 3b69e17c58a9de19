-- ===== src/Server/Unchanged.antt =====
-- Views of a key that an operation leaves as they are (src/storage/StorageEngine.cpp).
use distributed_in_memory_ke.Prelude.{
  ℕ, ◌≤◌, ◌≡◌, refl, false, Option, none, some, arith, inl, inr, if◌then◌else◌, Bool-cases, Bytes,
  bytes_eq, bytes_eq_sound, ℤ,
}
use distributed_in_memory_ke.Storage.Entry.{DictEntry}
use distributed_in_memory_ke.Storage.Live.{Visible, visible}
use distributed_in_memory_ke.Storage.Deadlines.{with_deadline, is_visible, has_deadline}
use distributed_in_memory_ke.Storage.NumberWrites.{stepped, after_step}

-- A step that answers nothing is no change of a view.
pub unstepped :
    (step : ℤ → ℤ) (t : ℕ) (key j : Bytes) (number : Option (ℤ × ℕ)) (view : Bytes → Option Visible)
    → stepped step number ≡ none
    → (if bytes_eq key j then after_step step t number (view key) else view j) ≡ view j
unstepped step t key j none view h = elim (Bool-cases (bytes_eq key j)) [
  | inl same ↦ rw (same, bytes_eq_sound key j same)
  | inr other ↦ rw other
]
unstepped step t key j (some (val, deadline)) view h = cc

-- What is not visible is not visible later, and no deadline is set on it.
invisible_later :
    (deadline now t : ℕ) (found : Option DictEntry)
    → is_visible (visible now found) ≡ false
    → now ≤ t
    → with_deadline deadline t (visible now found) ≡ visible t found
invisible_later deadline now t none h later = refl
invisible_later deadline now t (some entry) h later = ground arith

pub not_visible :
    (deadline now t : ℕ) (key j : Bytes) (entry : Bytes → Option DictEntry)
    → is_visible (visible now (entry key)) ≡ false
    → now ≤ t
    → (if bytes_eq key j
        then with_deadline deadline t (visible now (entry key))
        else visible t (entry j))
      ≡ visible t (entry j)
not_visible deadline now t key j entry h later = elim (Bool-cases (bytes_eq key j)) [
  | inl same ↦
      rw (same, invisible_later deadline now t (entry key) h later, bytes_eq_sound key j same)
  | inr other ↦ rw other
]

-- What has no deadline has none later, and keeps its view when it is removed.
untimed_later :
    (now t : ℕ) (found : Option DictEntry)
    → has_deadline (visible now found) ≡ false
    → now ≤ t
    → with_deadline 0 t (visible now found) ≡ visible t found
untimed_later now t none h later = refl
untimed_later now t (some entry) h later = ground arith

pub not_timed :
    (now t : ℕ) (key j : Bytes) (entry : Bytes → Option DictEntry)
    → has_deadline (visible now (entry key)) ≡ false
    → now ≤ t
    → (if bytes_eq key j then with_deadline 0 t (visible now (entry key)) else visible t (entry j))
      ≡ visible t (entry j)
not_timed now t key j entry h later = elim (Bool-cases (bytes_eq key j)) [
  | inl same ↦ rw (same, untimed_later now t (entry key) h later, bytes_eq_sound key j same)
  | inr other ↦ rw other
]
