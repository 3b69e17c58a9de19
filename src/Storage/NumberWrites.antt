-- ===== src/Storage/NumberWrites.antt =====
-- What INCR and DECR read and write, on the map of live keys (src/storage/StorageEngine.cpp).
use distributed_in_memory_ke.Prelude.{
  ℕ, ◌≤◌, ◌≡◌, ap, refl, ◌∙◌, true, false, ◌&&◌, Option, none, some, [], ◌∷◌, Bytes, bytes_eq,
  bytes_eq_sound, ltb, leb, Bool-cases, Option-cases, inl, inr, if◌then◌else◌, ℤ, pos,
}
use distributed_in_memory_ke.Std.Decimal.{from_chars_i64, to_string_i64}
use distributed_in_memory_ke.Storage.Entry.{CppString, DictEntry, Platform, is_expired, entry_cost}
use distributed_in_memory_ke.Storage.Shards.{
  entry_at, entry_at-update, entry_at-insert, length-erase_key,
}
use distributed_in_memory_ke.Storage.Evict.{Engine, Sampler}
use distributed_in_memory_ke.Storage.EvictionLoop.{make_room-fits}
use distributed_in_memory_ke.Storage.Operations.{
  make_room, cost_at, drop_entry, store_entry, read_number, write_number, step_number,
}
use distributed_in_memory_ke.Storage.Live.{Visible, visible, live, HasShards, live-drop}

-- The number that a text is, if it is one to the last byte.
abbrev pub whole : Option (ℤ × Bytes) → Option ℤ
whole (some (val, [])) = some val
whole _ = none

abbrev pub with_deadline_of : ℕ → Option ℤ → Option (ℤ × ℕ)
with_deadline_of deadline none = none
with_deadline_of deadline (some val) = some (val, deadline)

-- The number behind a live key, and its deadline; a key that is not there counts as 0.
abbrev pub number_of : Option Visible → Option (ℤ × ℕ)
number_of none = some (pos 0, 0)
number_of (some (chars, deadline)) = with_deadline_of deadline (whole (from_chars_i64 chars))

abbrev pub stepped : (ℤ → ℤ) → Option (ℤ × ℕ) → Option ℤ
stepped step none = none
stepped step (some (val, deadline)) = some (step val)

-- What is visible of the key afterwards: the new number under the old deadline.
abbrev pub after_step : (ℤ → ℤ) → ℕ → Option (ℤ × ℕ) → Option Visible → Option Visible
after_step step t none old = old
after_step step t (some (val, deadline)) old =
    if ltb 0 deadline && leb deadline t then none else some (to_string_i64 (step val), deadline)

module _ (platform : Platform) (key : CppString) where
  store_entry-visible :
      (value : CppString) (deadline now : ℕ) (e : Engine) (t : ℕ) (j : Bytes)
      → HasShards e
      → visible t (entry_at platform (store_entry platform key value deadline now e).shards j) ≡ (
          if bytes_eq key.chars j
          then if ltb 0 deadline && leb deadline t then none else some (value.chars, deadline)
          else visible t (entry_at platform e.shards j))
  unfolding store_entry
  store_entry-visible value deadline now e t j h =
      elim (Option-cases (entry_at platform e.shards key.chars)) [
        | inl missing ↦
            rw (missing, store_entry)
              (elim (Bool-cases (bytes_eq key.chars j)) [
                | inl same ↦
                    rw (entry_at-insert platform e.shards h key j _, same)
                      (rw (
                        platform.move_assign_chars (platform.make []) (platform.copy value),
                        platform.copy_chars value,
                      ))
                | inr other ↦ rw (entry_at-insert platform e.shards h key j _, other)
              ])
        | inr (old, found) ↦
            rw (found, store_entry)
              (elim (Bool-cases (bytes_eq key.chars j)) [
                | inl same ↦
                    rw (entry_at-update platform e.shards h key.chars j _ old found, same)
                      (rw (
                        platform.move_assign_chars old.value (platform.copy value),
                        platform.copy_chars value,
                      ))
                | inr other ↦
                    rw (entry_at-update platform e.shards h key.chars j _ old found, other)
              ])
      ]

  unlimited :
      (sampler : Sampler) (new_cost old_cost : ℕ) (e : Engine)
      → e.max_memory_bytes ≡ 0
      → make_room platform sampler key new_cost old_cost e ≡ (e, true)
  unlimited sampler new_cost old_cost e free =
      make_room-fits platform sampler key new_cost old_cost e (rw free)

  module _ (sampler : Sampler) (now : ℕ) (step : ℤ → ℤ) where
    write_number-visible :
        (val : ℤ) (deadline : ℕ) (old : Option DictEntry) (e : Engine) (t : ℕ) (j : Bytes)
        → HasShards e
        → e.max_memory_bytes ≡ 0
        → ((write_number platform sampler now key val deadline old e).1 ≡ some val)
          × (live platform t (write_number platform sampler now key val deadline old e).0 j ≡ (
              if bytes_eq key.chars j
              then if ltb 0 deadline && leb deadline t
                then none
                else some (to_string_i64 val, deadline)
              else live platform t e j))
    unfolding write_number
    write_number-visible val deadline old e t j h free =
        let room =
          unlimited sampler (entry_cost platform key (platform.make (to_string_i64 val)))
            (cost_at platform key old) e free in
        rw room (
          refl,
          store_entry-visible (platform.make (to_string_i64 val)) deadline now _ t j h
              ∙ rw (platform.make_chars (to_string_i64 val)),
        )

    abbrev stepping : Engine → Engine × Option ℤ
    stepping e = step_number platform step sampler now key (read_number platform now key e)

    -- What a step returns, and what clients see of it.
    abbrev pub Steps : Engine → Type 0
    Steps e =
        ((stepping e).1 ≡ stepped step (number_of (live platform now e key.chars)))
        × ((t : ℕ) (j : Bytes)
            → now ≤ t
            → live platform t (stepping e).0 j ≡ (
                if bytes_eq key.chars j
                then after_step step t (number_of (live platform now e key.chars))
                    (live platform t e key.chars)
                else live platform t e j))

    missing-Steps :
        (e : Engine)
        → HasShards e
        → e.max_memory_bytes ≡ 0
        → entry_at platform e.shards key.chars ≡ none
        → Steps e
    unfolding read_number
    missing-Steps e h free missing =
        rw (missing, read_number)
          (
            (write_number-visible (step (pos 0)) 0 none e now key.chars h free).0,
            λ t j later. (write_number-visible (step (pos 0)) 0 none e t j h free).1,
          )

    expired-Steps :
        (e : Engine) (entry : DictEntry)
        → HasShards e
        → e.max_memory_bytes ≡ 0
        → entry_at platform e.shards key.chars ≡ some entry
        → is_expired entry now ≡ true
        → Steps e
    unfolding read_number
    expired-Steps e entry h free found old =
        let e' = drop_entry platform key entry e in
        let h' : HasShards e' = rw (length-erase_key platform key.chars e.shards) h in
        let write =
          λ (t : ℕ) (j : Bytes). write_number-visible (step (pos 0)) 0 none e' t j h' free in
        rw (found, read_number)
          (rw old (
            (write now key.chars).0,
            λ t j later.
                (write t j).1
                ∙ ap
                    (λ v.
                      if bytes_eq key.chars j then some (to_string_i64 (step (pos 0)), 0) else v)
                    (live-drop platform key e h entry found now t j old later),
          ))

    seen_self :
        (e : Engine) (entry : DictEntry) (t : ℕ) (j : Bytes)
        → entry_at platform e.shards key.chars ≡ some entry
        → live platform t e j
          ≡ (if bytes_eq key.chars j then visible t (some entry) else live platform t e j)
    seen_self e entry t j found = elim (Bool-cases (bytes_eq key.chars j)) [
      | inl same ↦ rw same (rw (← bytes_eq_sound key.chars j same, found))
      | inr other ↦ rw other
    ]

    live-Steps :
        (e : Engine) (entry : DictEntry) (read : Option (ℤ × Bytes))
        → HasShards e
        → e.max_memory_bytes ≡ 0
        → entry_at platform e.shards key.chars ≡ some entry
        → is_expired entry now ≡ false
        → from_chars_i64 entry.value.chars ≡ read
        → Steps e
    unfolding read_number
    live-Steps e entry none h free found new e₁ =
        rw (found, read_number) (rw new (rw e₁ (refl, λ t j later. seen_self e entry t j found)))
    live-Steps e entry (some (val, c ∷ rest)) h free found new e₁ =
        rw (found, read_number) (rw new (rw e₁ (refl, λ t j later. seen_self e entry t j found)))
    live-Steps e entry (some (val, [])) h free found new e₁ =
        let write = λ (t : ℕ) (j : Bytes).
          write_number-visible (step val) entry.expire_at_ms (some entry) e t j h free in
        rw (found, read_number)
          (rw new (rw e₁ ((write now key.chars).0, λ t j later. (write t j).1)))

    pub steps : (e : Engine) → HasShards e → e.max_memory_bytes ≡ 0 → Steps e
    steps e h free = elim (Option-cases (entry_at platform e.shards key.chars)) [
      | inl missing ↦ missing-Steps e h free missing
      | inr (entry, found) ↦ elim (Bool-cases (is_expired entry now)) [
        | inl old ↦ expired-Steps e entry h free found old
        | inr new ↦ live-Steps e entry (from_chars_i64 entry.value.chars) h free found new refl
      ]
    ]
