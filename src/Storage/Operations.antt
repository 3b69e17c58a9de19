-- ===== src/Storage/Operations.antt =====
-- The operations of `StorageEngine` (src/storage/StorageEngine.cpp). `now` is what `now_ms()` returns
-- in the call.
use distributed_in_memory_ke.Prelude.{
  ℕ, ◌+◌, ◌-◌, Bool, true, false, ◌&&◌, Option, none, some, List, [], ◌∷◌, ltb, leb, ◌==◌,
  if◌then◌else◌, ℤ, pos, negsuc, to_u64, to_i64, two64, Bytes,
}
use distributed_in_memory_ke.Std.Decimal.{from_chars_i64, to_string_i64}
use distributed_in_memory_ke.Storage.Entry.{
  CppString, DictEntry, Platform, is_expired, add_size, sub_size, entry_cost,
}
use distributed_in_memory_ke.Storage.Shards.{entry_at, erase_key, update_key, insert_key}
use distributed_in_memory_ke.Storage.Evict.{
  Engine, memory_add, memory_sub, count_hit, count_miss, count_expired, Sampler, evict_from_shard,
}

-- `val++` and `val--` on `int64_t`, in two's complement where C++ leaves the overflow undefined.
abbrev pub increment : ℤ → ℤ
increment val = to_i64 (to_u64 val + 1)

abbrev pub decrement : ℤ → ℤ
decrement val = to_i64 (to_u64 val + (two64 - 1))

module _ (platform : Platform) where
  -- The lazy deletion: the entry is erased and its cost, with the caller's key, is subtracted.
  abbrev pub drop_entry : CppString → DictEntry → Engine → Engine
  drop_entry key entry e = record (memory_sub (entry_cost platform key entry.value) e) {
    shards = erase_key platform key.chars e.shards;
  }

  abbrev pub write_entry : CppString → DictEntry → Engine → Engine
  write_entry key entry e = record e { shards = update_key platform key.chars entry e.shards }

  abbrev pub touch : CppString → DictEntry → ℕ → Engine → Engine
  touch key entry now e = write_entry key (record entry { last_access_ms = now }) e

  -- The test against `maxmemory` before a write, and the eviction that it starts. The second
  -- component says whether there is room now.
  unfoldable pub make_room : Sampler → CppString → ℕ → ℕ → Engine → Engine × Bool
  make_room sampler key new_cost old_cost e =
      let wanted = add_size e.total_memory_usage new_cost in
      let allowed = add_size e.max_memory_bytes old_cost in
      if ltb 0 e.max_memory_bytes && ltb allowed wanted
      then (let (e', freed) = evict_from_shard sampler platform key.chars (wanted - allowed) e in
          (e', if ltb freed (wanted - allowed) then false else true))
      else (e, true)

  -- `try_emplace`, and the assignments where the key is there.
  unfoldable pub emplace : CppString → CppString → ℕ → Engine → Engine
  emplace key value now e = elim (entry_at platform e.shards key.chars) [
    | none ↦ record e {
      shards =
          insert_key platform key
            (record { value = platform.copy value; expire_at_ms = 0; last_access_ms = now })
            e.shards;
    }
    | some old ↦
        write_entry key
          (record {
            value = platform.assign old.value value;
            expire_at_ms = 0;
            last_access_ms = now;
          })
          e
  ]

  abbrev pub cost_at : CppString → Option DictEntry → ℕ
  cost_at key none = 0
  cost_at key (some entry) = entry_cost platform key entry.value

  unfoldable pub set : Sampler → ℕ → CppString → CppString → Engine → Engine × Bool
  unfolding make_room emplace
  set sampler now key value e =
      let new_cost = entry_cost platform key value in
      let old_cost = cost_at key (entry_at platform e.shards key.chars) in
      let (e', room) = make_room sampler key new_cost old_cost e in
      if room
      then (emplace key value now (memory_add (sub_size new_cost old_cost) e'), true)
      else (e', false)

  unfoldable pub get : ℕ → CppString → Engine → Engine × Option Bytes
  get now key e = elim (entry_at platform e.shards key.chars) [
    | none ↦ (count_miss e, none)
    | some entry ↦
        if is_expired entry now
        then (count_miss (count_expired (drop_entry key entry e)), none)
        else (count_hit (touch key entry now e), some entry.value.chars)
  ]

  unfoldable pub del_key : CppString → Engine → Engine × ℕ
  del_key key e = elim (entry_at platform e.shards key.chars) [
    | none ↦ (e, 0)
    | some entry ↦ (drop_entry key entry e, 1)
  ]

  -- `deleted_count` and `count` are of type `int`: they are the code's for fewer than 2 ^ 31 keys, and
  -- for more the code's addition is undefined.
  unfoldable pub del : List CppString → Engine → Engine × ℕ
  unfolding del_key
  del [] e = (e, 0)
  del (key ∷ keys) e =
      let (e₁, deleted) = del_key key e in let (e₂, more) = del keys e₁ in (e₂, deleted + more)

  unfoldable pub exists_key : ℕ → CppString → Engine → Engine × ℕ
  exists_key now key e = elim (entry_at platform e.shards key.chars) [
    | none ↦ (count_miss e, 0)
    | some entry ↦
        if is_expired entry now
        then (count_miss (count_expired (drop_entry key entry e)), 0)
        else (count_hit (touch key entry now e), 1)
  ]

  -- As in `del`, `count` is an `int`.
  unfoldable pub exists : ℕ → List CppString → Engine → Engine × ℕ
  unfolding exists_key
  exists now [] e = (e, 0)
  exists now (key ∷ keys) e =
      let (e₁, found) = exists_key now key e in
      let (e₂, more) = exists now keys e₁ in (e₂, found + more)

  unfoldable pub expire_to : ℕ → CppString → ℕ → Engine → Engine × Bool
  expire_to now key deadline e = elim (entry_at platform e.shards key.chars) [
    | none ↦ (e, false)
    | some entry ↦
        if is_expired entry now then (count_expired (drop_entry key entry e), false) else (
          write_entry key (record entry { expire_at_ms = deadline; last_access_ms = now }) e,
          true,
        )
  ]

  -- `now + ms_offset` is computed in `uint64_t`.
  unfoldable pub expire : ℕ → CppString → ℤ → Engine → Engine × Bool
  unfolding expire_to
  expire now key ms_offset = expire_to now key (add_size now (to_u64 ms_offset))

  unfoldable pub expire_at : ℕ → CppString → ℕ → Engine → Engine × Bool
  unfolding expire_to
  expire_at now key absolute_ms = expire_to now key absolute_ms

  -- -2 without the key, -1 without a deadline. An expired entry is erased and not counted.
  unfoldable pub pttl : ℕ → CppString → Engine → Engine × ℤ
  pttl now key e = elim (entry_at platform e.shards key.chars) [
    | none ↦ (e, negsuc 1)
    | some entry ↦
        if ltb 0 entry.expire_at_ms
        then if leb entry.expire_at_ms now
          then (drop_entry key entry e, negsuc 1)
          else (e, to_i64 (entry.expire_at_ms - now))
        else (e, negsuc 0)
  ]

  unfoldable pub persist : ℕ → CppString → Engine → Engine × Bool
  persist now key e = elim (entry_at platform e.shards key.chars) [
    | none ↦ (e, false)
    | some entry ↦
        if is_expired entry now
        then (drop_entry key entry e, false)
        else if entry.expire_at_ms == 0
        then (e, false)
        else (write_entry key (record entry { expire_at_ms = 0; last_access_ms = now }) e, true)
  ]

  -- What `incr` and `decr` read before they write: the value, the deadline to keep, and the entry
  -- that is overwritten. An entry that is no integer to its last byte refuses the operation.
  abbrev pub Current : Type 0
  Current = ℤ × ℕ × Option DictEntry

  abbrev pub whole_number : DictEntry → Option (ℤ × Bytes) → Option Current
  whole_number entry (some (val, [])) = some (val, entry.expire_at_ms, some entry)
  whole_number entry _ = none

  unfoldable pub read_number : ℕ → CppString → Engine → Engine × Option Current
  read_number now key e = elim (entry_at platform e.shards key.chars) [
    | none ↦ (e, some (pos 0, 0, none))
    | some entry ↦
        if is_expired entry now
        then (drop_entry key entry e, some (pos 0, 0, none))
        else (e, whole_number entry (from_chars_i64 entry.value.chars))
  ]

  -- `shard.dict[key] = DictEntry{…}`: a key that is not there first gets an empty entry.
  unfoldable pub store_entry : CppString → CppString → ℕ → ℕ → Engine → Engine
  store_entry key value expire_at_ms now e = elim (entry_at platform e.shards key.chars) [
    | none ↦ record e {
      shards =
          insert_key platform key
            (record {
              value = platform.move_assign (platform.make []) (platform.copy value);
              expire_at_ms = expire_at_ms;
              last_access_ms = now;
            })
            e.shards;
    }
    | some old ↦
        write_entry key
          (record {
            value = platform.move_assign old.value (platform.copy value);
            expire_at_ms = expire_at_ms;
            last_access_ms = now;
          })
          e
  ]

  unfoldable pub write_number :
      Sampler → ℕ → CppString → ℤ → ℕ → Option DictEntry → Engine → Engine × Option ℤ
  unfolding make_room store_entry
  write_number sampler now key val expire_at_ms old e =
      let new_value = platform.make (to_string_i64 val) in
      let new_cost = entry_cost platform key new_value in
      let old_cost = cost_at key old in
      let (e', room) = make_room sampler key new_cost old_cost e in
      if room
      then (
        store_entry key new_value expire_at_ms now (memory_add (sub_size new_cost old_cost) e'),
        some val,
      )
      else (e', none)

  abbrev pub step_number :
      (ℤ → ℤ) → Sampler → ℕ → CppString → Engine × Option Current → Engine × Option ℤ
  step_number step sampler now key (e, none) = (e, none)
  step_number step sampler now key (e, some (val, expire_at_ms, old)) =
      write_number sampler now key (step val) expire_at_ms old e

  unfoldable pub incr : Sampler → ℕ → CppString → Engine → Engine × Option ℤ
  unfolding read_number write_number
  incr sampler now key e = step_number increment sampler now key (read_number now key e)

  unfoldable pub decr : Sampler → ℕ → CppString → Engine → Engine × Option ℤ
  unfolding read_number write_number
  decr sampler now key e = step_number decrement sampler now key (read_number now key e)
