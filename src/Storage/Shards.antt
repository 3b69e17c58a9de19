-- ===== src/Storage/Shards.antt =====
-- `shards_` and `get_shard_index` (include/storage/StorageEngine.h, src/storage/StorageEngine.cpp): a
-- key lives in the dictionary that its hash selects. The laws read the whole as one map of keys.
use distributed_in_memory_ke.Prelude.{
  ℕ, ◌%◌, ◌<◌, ◌≡◌, ◌≢◌, inl, inr, refl, ap, Bool, true, false, Option, none, some, List, [], ◌∷◌,
  arith, Bool-cases, if◌then◌else◌, Bytes, bytes_eq, bytes_eq_sound, bytes_eq_refl, length, get_or,
  set, length-set, get_or-set_self, get_or-set_ne, ◌==◌,
}
use distributed_in_memory_ke.Storage.Entry.{CppString, DictEntry, Platform}
use distributed_in_memory_ke.Storage.Dict.{
  Node, Dict, find, erase, update, contains, entry_of, find-erase, find-update_ne, find-update_self,
}

abbrev pub Shards : Type 0
Shards = List Dict

module _ (platform : Platform) where
  unfoldable pub get_shard_index : Shards → Bytes → ℕ
  get_shard_index shards key = platform.hash key % length shards

  -- `shards_[idx].dict` for the key's own index, and a write to it.
  abbrev pub shard_of : Shards → Bytes → Dict
  shard_of shards key = get_or shards (get_shard_index shards key) []

  abbrev pub write_shard : Shards → Bytes → Dict → Shards
  write_shard shards key d = set shards (get_shard_index shards key) d

  -- The node and the entry that the engine finds for a key.
  unfoldable pub node_at : Shards → Bytes → Option Node
  node_at shards key = find key (shard_of shards key)

  unfoldable pub entry_at : Shards → Bytes → Option DictEntry
  unfolding node_at
  entry_at shards key = entry_of (node_at shards key)

  -- `shard.dict.erase(it)`
  unfoldable pub erase_key : Bytes → Shards → Shards
  erase_key key shards = write_shard shards key (erase key (shard_of shards key))

  -- A write through the iterator of a key that is there.
  unfoldable pub update_key : Bytes → DictEntry → Shards → Shards
  update_key key entry shards = write_shard shards key (update key entry (shard_of shards key))

  -- A new node, for a key that is not there.
  unfoldable pub insert_key : CppString → DictEntry → Shards → Shards
  insert_key key entry shards =
      write_shard shards key.chars ((platform.copy key, entry) ∷ shard_of shards key.chars)

  pub get_shard_index-lt :
      (shards : Shards) (key : Bytes)
      → 0 < length shards
      → get_shard_index shards key < length shards
  unfolding get_shard_index
  get_shard_index-lt shards key h = grind arith

  index-write :
      (shards : Shards) (key j : Bytes) (d : Dict)
      → get_shard_index (write_shard shards key d) j ≡ get_shard_index shards j
  unfolding get_shard_index
  index-write shards key j d = rw (length-set shards (get_shard_index shards key) d)

  -- A write to the key's shard is seen through every key of that shard, and through no other.
  pub shard_of-write_same :
      (shards : Shards) (key j : Bytes) (d : Dict)
      → 0 < length shards
      → get_shard_index shards key ≡ get_shard_index shards j
      → shard_of (write_shard shards key d) j ≡ d
  shard_of-write_same shards key j d h e =
      rw (index-write shards key j d, ← e)
        (get_or-set_self shards _ d [] (get_shard_index-lt shards key h))

  pub shard_of-write_other :
      (shards : Shards) (key j : Bytes) (d : Dict)
      → get_shard_index shards key ≢ get_shard_index shards j
      → shard_of (write_shard shards key d) j ≡ shard_of shards j
  shard_of-write_other shards key j d n =
      rw (index-write shards key j d)
        (get_or-set_ne shards (get_shard_index shards key) (get_shard_index shards j) d [] n)

  -- A write that keeps a key's node keeps it, in whichever shard the write is.
  pub node_at-write :
      (shards : Shards) (key j : Bytes) (d : Dict)
      → 0 < length shards
      → find j d ≡ find j (shard_of shards key)
      → node_at (write_shard shards key d) j ≡ node_at shards j
  unfolding node_at
  node_at-write shards key j d h same =
      elim (Bool-cases (get_shard_index shards key == get_shard_index shards j)) [
        | inl t ↦
            let e : get_shard_index shards key ≡ get_shard_index shards j = ground arith in
            rw (shard_of-write_same shards key j d h e) (rw (same, e))
        | inr t ↦ rw (shard_of-write_other shards key j d (λ e. ground arith))
      ]

  -- What a write leaves for its own key.
  pub node_at-write_self :
      (shards : Shards) (key : Bytes) (d : Dict)
      → 0 < length shards
      → node_at (write_shard shards key d) key ≡ find key d
  unfolding node_at
  node_at-write_self shards key d h = rw (shard_of-write_same shards key key d h refl)

  contains-found :
      (shards : Shards) (k : Bytes) (old : DictEntry)
      → entry_at shards k ≡ some old
      → contains k (shard_of shards k) ≡ true
  unfolding entry_at
  contains-found shards k old found = ground arith

  find-cons_self :
      (k : CppString) (new : DictEntry) (d : Dict)
      → find k.chars ((platform.copy k, new) ∷ d) ≡ some (platform.copy k, new)
  unfolding find
  find-cons_self k new d = rw (platform.copy_chars k, bytes_eq_refl k.chars)

  find-cons_ne :
      (k : CppString) (j : Bytes) (new : DictEntry) (d : Dict)
      → bytes_eq k.chars j ≡ false
      → find j ((platform.copy k, new) ∷ d) ≡ find j d
  unfolding find
  find-cons_ne k j new d t = rw (platform.copy_chars k, t)

  entry_of-if :
      (b : Bool) (found : Option Node)
      → entry_of (if b then none else found) ≡ (if b then none else entry_of found)
  entry_of-if true found = refl
  entry_of-if false found = refl

  module _ (shards : Shards) (h : 0 < length shards) where
    pub node_at-erase :
        (k j : Bytes)
        → node_at (erase_key k shards) j ≡ (if bytes_eq k j then none else node_at shards j)
    unfolding erase_key
    node_at-erase k j = elim (Bool-cases (bytes_eq k j)) [
      | inl t ↦
          rw (t, bytes_eq_sound k j t, node_at-write_self shards j _ h, find-erase, bytes_eq_refl j)
      | inr t ↦ rw t (
          node_at-write shards k j (erase k (shard_of shards k)) h
            (rw (find-erase k j (shard_of shards k), t)))
    ]

    pub entry_at-erase :
        (k j : Bytes)
        → entry_at (erase_key k shards) j ≡ (if bytes_eq k j then none else entry_at shards j)
    unfolding entry_at
    entry_at-erase k j = rw (node_at-erase k j) (entry_of-if (bytes_eq k j) (node_at shards j))

    -- An update is seen at its own key, where that key is there.
    pub entry_at-update :
        (k j : Bytes) (new old : DictEntry)
        → entry_at shards k ≡ some old
        → entry_at (update_key k new shards) j
          ≡ (if bytes_eq k j then some new else entry_at shards j)
    unfolding update_key entry_at
    entry_at-update k j new old found = elim (Bool-cases (bytes_eq k j)) [
      | inl t ↦
          let here : contains k (shard_of shards k) ≡ true = contains-found shards k old found in
          rw (t, ← bytes_eq_sound k j t, node_at-write_self shards k _ h, find-update_self, here)
      | inr t ↦ rw t (
          ap entry_of (node_at-write shards k j _ h (find-update_ne k j new (shard_of shards k) t)))
    ]

    pub entry_at-insert :
        (k : CppString) (j : Bytes) (new : DictEntry)
        → entry_at (insert_key k new shards) j
          ≡ (if bytes_eq k.chars j then some new else entry_at shards j)
    unfolding insert_key entry_at
    entry_at-insert k j new = elim (Bool-cases (bytes_eq k.chars j)) [
      | inl t ↦
          rw (t, ← bytes_eq_sound k.chars j t, node_at-write_self shards k.chars _ h)
            (rw (find-cons_self k new (shard_of shards k.chars)))
      | inr t ↦ rw t (
          ap entry_of
            (node_at-write shards k.chars j _ h (find-cons_ne k j new (shard_of shards k.chars) t)))
    ]

  pub length-erase_key : (k : Bytes) (shards : Shards) → length (erase_key k shards) ≡ length shards
  unfolding erase_key
  length-erase_key k shards = length-set shards _ _

  pub length-update_key :
      (k : Bytes) (new : DictEntry) (shards : Shards)
      → length (update_key k new shards) ≡ length shards
  unfolding update_key
  length-update_key k new shards = length-set shards _ _

  pub length-insert_key :
      (k : CppString) (new : DictEntry) (shards : Shards)
      → length (insert_key k new shards) ≡ length shards
  unfolding insert_key
  length-insert_key k new shards = length-set shards _ _
