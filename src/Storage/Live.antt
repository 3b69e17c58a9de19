-- ===== src/Storage/Live.antt =====
-- What a client can see of the engine (src/storage/StorageEngine.cpp): for each key the value and
-- the deadline of its entry, unless the deadline has passed. The operations are described by what
-- they do to this map.
use distributed_in_memory_ke.Prelude.{
  ℕ, ◌<◌, ◌≤◌, ◌≡◌, true, inl, inr, Option, none, some, arith, if◌then◌else◌, Bytes, bytes_eq,
  bytes_eq_sound, Bool-cases, length,
}
use distributed_in_memory_ke.Storage.Operations.{drop_entry, write_entry, touch}
use distributed_in_memory_ke.Storage.Entry.{CppString, Platform, DictEntry, is_expired}
use distributed_in_memory_ke.Storage.Shards.{entry_at, entry_at-erase, entry_at-update}
use distributed_in_memory_ke.Storage.Evict.{Engine}

-- The contents of a value and its deadline, 0 for none.
abbrev pub Visible : Type 0
Visible = Bytes × ℕ

abbrev pub visible : ℕ → Option DictEntry → Option Visible
visible now none = none
visible now (some entry) =
    if is_expired entry now then none else some (entry.value.chars, entry.expire_at_ms)

abbrev pub live : Platform → ℕ → Engine → Bytes → Option Visible
live platform now e key = visible now (entry_at platform e.shards key)

abbrev pub HasShards : Engine → Type 0
HasShards e = 0 < length e.shards

-- An entry whose deadline has passed stays invisible.
pub expired_later :
    (entry : DictEntry) (now t : ℕ)
    → is_expired entry now ≡ true
    → now ≤ t
    → visible t (some entry) ≡ none
expired_later entry now t h later = ground arith

module _ (platform : Platform) (key : CppString) (e : Engine) (h : HasShards e) (entry : DictEntry)
    (found : entry_at platform e.shards key.chars ≡ some entry) where
  -- Dropping an expired entry is seen by nobody.
  pub live-drop :
      (now t : ℕ) (j : Bytes)
      → is_expired entry now ≡ true
      → now ≤ t
      → live platform t (drop_entry platform key entry e) j ≡ live platform t e j
  live-drop now t j old later = elim (Bool-cases (bytes_eq key.chars j)) [
    | inl same ↦ rw (
      entry_at-erase platform e.shards h key.chars j,
      same,
      ← bytes_eq_sound key.chars j same,
      found,
      expired_later entry now t old later,
    )
    | inr other ↦ rw (entry_at-erase platform e.shards h key.chars j, other)
  ]

  -- A write to an entry is seen at its key.
  pub live-write :
      (new : DictEntry) (t : ℕ) (j : Bytes)
      → live platform t (write_entry platform key new e) j
        ≡ (if bytes_eq key.chars j then visible t (some new) else live platform t e j)
  live-write new t j = elim (Bool-cases (bytes_eq key.chars j)) [
    | inl same ↦ rw (entry_at-update platform e.shards h key.chars j new entry found, same)
    | inr other ↦ rw (entry_at-update platform e.shards h key.chars j new entry found, other)
  ]

  -- The time of access is not visible.
  pub live-touch :
      (now t : ℕ) (j : Bytes)
      → live platform t (touch platform key entry now e) j ≡ live platform t e j
  live-touch now t j = elim (Bool-cases (bytes_eq key.chars j)) [
    | inl same ↦
        rw (live-write (record entry { last_access_ms = now }) t j, same)
          (rw (← bytes_eq_sound key.chars j same, found))
    | inr other ↦ rw (live-write (record entry { last_access_ms = now }) t j, other)
  ]
