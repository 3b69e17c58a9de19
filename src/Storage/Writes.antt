-- ===== src/Storage/Writes.antt =====
-- SET on the map of keys (src/storage/StorageEngine.cpp).
use distributed_in_memory_ke.Prelude.{
  ℕ, ◌≡◌, ◌⊎◌, ap, sym, ◌∙◌, Bool, true, false, Option, none, some, [], arith, Bytes, bytes_eq,
  bytes_eq_refl, length, ◌==◌, Bool-cases, Option-cases, inl, inr, if◌then◌else◌,
}
use distributed_in_memory_ke.Storage.Entry.{CppString, DictEntry, Platform, sub_size, entry_cost}
use distributed_in_memory_ke.Storage.Dict.{find}
use distributed_in_memory_ke.Storage.Shards.{
  get_shard_index, shard_of, entry_at, entry_at-update, entry_at-insert, length-update_key,
  length-insert_key,
}
use distributed_in_memory_ke.Storage.Evict.{Engine, Sampler, memory_add}
use distributed_in_memory_ke.Storage.Eviction.{Evicted, same_index}
use distributed_in_memory_ke.Storage.EvictionLoop.{exceeds, make_room-fits, make_room_lem}
use distributed_in_memory_ke.Storage.Operations.{make_room, emplace, cost_at, set}
use distributed_in_memory_ke.Storage.Live.{visible, live, HasShards}

module _ (platform : Platform) (key value : CppString) (now : ℕ) where
  -- The write itself: the key has the value and no deadline, and nothing else changes.
  emplace-visible :
      (e : Engine) (t : ℕ) (j : Bytes)
      → HasShards e
      → visible t (entry_at platform (emplace platform key value now e).shards j) ≡ (
          if bytes_eq key.chars j
          then some (value.chars, 0)
          else visible t (entry_at platform e.shards j))
  unfolding emplace
  emplace-visible e t j h = elim (Option-cases (entry_at platform e.shards key.chars)) [
    | inl missing ↦
        rw (missing, emplace)
          (elim (Bool-cases (bytes_eq key.chars j)) [
            | inl same ↦
                rw (entry_at-insert platform e.shards h key j _, same)
                  (rw (platform.copy_chars value))
            | inr other ↦ rw (entry_at-insert platform e.shards h key j _, other)
          ])
    | inr (old, found) ↦
        rw (found, emplace)
          (elim (Bool-cases (bytes_eq key.chars j)) [
            | inl same ↦
                rw (entry_at-update platform e.shards h key.chars j _ old found, same)
                  (rw (platform.assign_chars old.value value))
            | inr other ↦ rw (entry_at-update platform e.shards h key.chars j _ old found, other)
          ])
  ]

  length-emplace : (e : Engine) → length (emplace platform key value now e).shards ≡ length e.shards
  unfolding emplace
  length-emplace e = elim (Option-cases (entry_at platform e.shards key.chars)) [
    | inl missing ↦ rw (missing, emplace) (length-insert_key platform key _ e.shards)
    | inr (old, found) ↦ rw (found, emplace) (length-update_key platform key.chars _ e.shards)
  ]

  module _ (sampler : Sampler) (e : Engine) (h : HasShards e) where
    -- The costs that `set` compares with the limit.
    abbrev pub set_exceeds : Bool
    set_exceeds =
        exceeds platform sampler key (entry_cost platform key value)
          (cost_at platform key (entry_at platform e.shards key.chars)) e

    -- Where the write fits under the limit of an engine with a shard, SET succeeds, and to every
    -- client at any time the key has the value and no deadline, and every other key is as before.
    pub set-live :
        set_exceeds ≡ false
        → ((set platform sampler now key value e).1 ≡ true)
          × ((t : ℕ) (j : Bytes)
              → live platform t (set platform sampler now key value e).0 j
                ≡ (if bytes_eq key.chars j then some (value.chars, 0) else live platform t e j))
    unfolding set
    set-live fits =
        let room = make_room-fits platform sampler key _ _ e fits in
        (rw room, λ t j. rw room (emplace-visible _ t j h))

    -- What `set` does after the test, by the answer of the test.
    abbrev room : Engine × Bool
    room =
        make_room platform sampler key (entry_cost platform key value)
          (cost_at platform key (entry_at platform e.shards key.chars)) e

    -- The engine once the difference of the costs is added.
    abbrev charged : Engine
    charged =
        memory_add
          (sub_size (entry_cost platform key value)
            (cost_at platform key (entry_at platform e.shards key.chars)))
          room.0

    set-room :
        room.1 ≡ true
        → set platform sampler now key value e ≡ (emplace platform key value now charged, true)
    unfolding set
    set-room r = rw r

    set-no_room : room.1 ≡ false → set platform sampler now key value e ≡ (room.0, false)
    unfolding set
    set-no_room r = rw r

    evicted : Evicted platform key.chars e room.0
    evicted = (make_room_lem platform sampler key _ _ e h).0

    visible_kept :
        (t : ℕ) (a b : Option DictEntry)
        → (a ≡ b) ⊎ (a ≡ none)
        → (visible t a ≡ visible t b) ⊎ (visible t a ≡ none)
    visible_kept t a b (inl same) = inl (ap (visible t) same)
    visible_kept t a b (inr gone) = inr (ap (visible t) gone)

    emptied-entry :
        (e' : Engine) (j : Bytes)
        → length e'.shards ≡ length e.shards
        → shard_of platform e'.shards key.chars ≡ []
        → get_shard_index platform e.shards key.chars ≡ get_shard_index platform e.shards j
        → entry_at platform e'.shards j ≡ none
    unfolding entry_at find
    emptied-entry e' j count empty same =
        let index : get_shard_index platform e'.shards j
            ≡ get_shard_index platform e'.shards key.chars =
          same_index platform key.chars e e' j count
          ∙ sym same
          ∙ sym (same_index platform key.chars e e' key.chars count) in
        rw index (rw empty)

    elsewhere_visible :
        (t : ℕ) (j : Bytes)
        → (get_shard_index platform e.shards key.chars ≡ get_shard_index platform e.shards j)
          ⊎ (live platform t room.0 j ≡ live platform t e j)
    elsewhere_visible t j = elim (evicted.elsewhere j) [
      | inl here ↦ inl here
      | inr same ↦ inr (ap (visible t) same)
    ]

    -- Where SET succeeds in an engine with a shard, the key has the value and no deadline. Making
    -- room may have removed other keys, but has changed none, and has not touched those whose shard
    -- is another.
    pub set-kept :
        (set platform sampler now key value e).1 ≡ true
        → (t : ℕ) (j : Bytes) → bytes_eq key.chars j ≡ false
        → let e' = (set platform sampler now key value e).0 in
          (live platform t e' key.chars ≡ some (value.chars, 0))
          × ((live platform t e' j ≡ live platform t e j) ⊎ (live platform t e' j ≡ none))
          × ((get_shard_index platform e.shards key.chars ≡ get_shard_index platform e.shards j)
              ⊎ (live platform t e' j ≡ live platform t e j))
    set-kept done t j other = elim (Bool-cases room.1) [
      | inr refused ↦ absurd (cc (rw (set-no_room refused) at done))
      | inl r ↦
          let h' : HasShards room.0 = rw evicted.shard_count h in
          let written = λ (i : Bytes). emplace-visible charged t i h' in
          rw (set-room r) (
            written key.chars ∙ rw (bytes_eq_refl key.chars),
            rw (written j, other) (visible_kept t _ _ (evicted.kept j)),
            rw (written j, other) (elsewhere_visible t j),
          )
    ]

    -- Where SET is refused in an engine with a shard, the shard of the key has lost all its keys,
    -- the key's old value with them, and the keys of other shards are as before.
    pub set-refused :
        (set platform sampler now key value e).1 ≡ false
        → (t : ℕ) (j : Bytes)
        → let e' = (set platform sampler now key value e).0 in
          live platform t e' j ≡ (
            if get_shard_index platform e.shards key.chars == get_shard_index platform e.shards j
            then none
            else live platform t e j)
    set-refused failed t j = elim (Bool-cases room.1) [
      | inl r ↦ absurd (cc (rw (set-room r) at failed))
      | inr refused ↦
          rw (set-no_room refused)
            (elim (Bool-cases (
              get_shard_index platform e.shards key.chars == get_shard_index platform e.shards j)) [
                | inl same ↦ rw same (
                    ap (visible t) (
                      emptied-entry room.0 j evicted.shard_count
                        ((make_room_lem platform sampler key _ _ e h).1 refused) (ground arith)))
                | inr apart ↦ rw apart (elim (elsewhere_visible t j) [
                  | inl here ↦ absurd (ground arith)
                  | inr same ↦ same
                ])
              ])
    ]
