-- ===== src/Storage/KeptOperations.antt =====
-- The operations of `StorageEngine` (src/storage/StorageEngine.cpp) keep what its writes to a shard
-- keep.
use distributed_in_memory_ke.Prelude.{
  ℕ, zero, suc, ◌+◌, Bool, true, false, ◌&&◌, ◌≡◌, Option, none, some, List, [], ◌∷◌, inl, inr,
  if◌then◌else◌, ltb, leb, ◌==◌, Option-cases, Bytes, length, ℤ,
}
use distributed_in_memory_ke.Std.Decimal.{to_string_i64}
use distributed_in_memory_ke.Storage.Entry.{
  CppString, DictEntry, Platform, is_expired, entry_cost, add_size, sub_size,
}
use distributed_in_memory_ke.Storage.Shards.{
  Shards, shard_of, write_shard, erase_key, update_key, insert_key, entry_at,
}
use distributed_in_memory_ke.Storage.Dict.{erase}
use distributed_in_memory_ke.Storage.Evict.{
  Engine, Sampler, victim, evict_node, evict_loop, evict_from_shard, memory_add,
}
use distributed_in_memory_ke.Storage.Operations.{
  drop_entry, write_entry, make_room, emplace, cost_at, set, get, del_key, del, exists_key, exists,
  expire_to, pttl, persist, Current, read_number, store_entry, write_number, step_number, incr,
  decr, increment, decrement,
}

pub if_holds {ℓ κ} :
    {A : Type ℓ} (P : A → Type κ) (b : Bool) {x y : A} → P x → P y → P (if b then x else y)
if_holds P true hx hy = hx
if_holds P false hx hy = hy

-- A property of the shards and the limit that the writes to a shard keep.
pub record IsClosed (platform : Platform) (P : Shards → ℕ → Type 0) : Type 0 where
  pub erase_closed :
      (key : Bytes) (shards : Shards) (m : ℕ) → P shards m → P (erase_key platform key shards) m
  pub erase_at_closed :
      (key k : Bytes) (shards : Shards) (m : ℕ)
      → P shards m
      → P (write_shard platform shards key (erase k (shard_of platform shards key))) m
  pub update_closed :
      (key : Bytes) (new : DictEntry) (shards : Shards) (m : ℕ)
      → P shards m
      → P (update_key platform key new shards) m
  pub insert_closed :
      (key : CppString) (new : DictEntry) (shards : Shards) (m : ℕ)
      → entry_at platform shards key.chars ≡ none
      → P shards m
      → P (insert_key platform key new shards) m

module _ (platform : Platform) (P : Shards → ℕ → Type 0) (closed : IsClosed platform P) where
  abbrev pub Kept : Engine → Type 0
  Kept e = P e.shards e.max_memory_bytes

  abbrev Fine : {A : Type 0} → Engine × A → Type 0
  Fine out = Kept out.0

  drop_entry-Kept :
      (key : CppString) (entry : DictEntry) (e : Engine)
      → Kept e
      → Kept (drop_entry platform key entry e)
  drop_entry-Kept key entry e u = closed.erase_closed key.chars e.shards e.max_memory_bytes u

  write_entry-Kept :
      (key : CppString) (entry : DictEntry) (e : Engine)
      → Kept e
      → Kept (write_entry platform key entry e)
  write_entry-Kept key entry e u =
      closed.update_closed key.chars entry e.shards e.max_memory_bytes u

  evict_loop-Kept :
      (sampler : Sampler) (f i : ℕ) (key : Bytes) (needed freed : ℕ) (e : Engine)
      → Kept e
      → Fine (evict_loop sampler platform f i key needed freed e)
  unfolding evict_loop
  evict_loop-Kept sampler zero i key needed freed e u = u
  evict_loop-Kept sampler (suc f) i key needed freed e u =
      if_holds Fine (ltb freed needed)
        (elim (Option-cases (victim sampler i (shard_of platform e.shards key))) [
          | inl missing ↦ rw missing u
          | inr ((k, entry), found) ↦ rw found (
              evict_loop-Kept sampler f (5 + i) key needed
                (add_size freed (entry_cost platform k entry.value))
                (evict_node platform key (k, entry) e)
                (closed.erase_at_closed key k.chars e.shards e.max_memory_bytes u))
        ])
        u

  make_room-Kept :
      (sampler : Sampler) (key : CppString) (new_cost old_cost : ℕ) (e : Engine)
      → Kept e
      → Fine (make_room platform sampler key new_cost old_cost e)
  unfolding make_room evict_from_shard
  make_room-Kept sampler key new_cost old_cost e u =
      if_holds Fine
        (ltb 0 e.max_memory_bytes
          && ltb (add_size e.max_memory_bytes old_cost) (add_size e.total_memory_usage new_cost))
        (evict_loop-Kept sampler (length (shard_of platform e.shards key.chars)) 0 key.chars _ 0 e
          u)
        u

  emplace-Kept :
      (key value : CppString) (now : ℕ) (e : Engine)
      → Kept e
      → Kept (emplace platform key value now e)
  unfolding emplace
  emplace-Kept key value now e u = elim (Option-cases (entry_at platform e.shards key.chars)) [
    | inl missing ↦
        rw (missing, emplace) (closed.insert_closed key _ e.shards e.max_memory_bytes missing u)
    | inr (old, found) ↦ rw (found, emplace) (write_entry-Kept key _ e u)
  ]

  store_entry-Kept :
      (key value : CppString) (deadline now : ℕ) (e : Engine)
      → Kept e
      → Kept (store_entry platform key value deadline now e)
  unfolding store_entry
  store_entry-Kept key value deadline now e u =
      elim (Option-cases (entry_at platform e.shards key.chars)) [
        | inl missing ↦
            rw (missing, store_entry)
              (closed.insert_closed key _ e.shards e.max_memory_bytes missing u)
        | inr (old, found) ↦ rw (found, store_entry) (write_entry-Kept key _ e u)
      ]

  pub set-Kept :
      (sampler : Sampler) (now : ℕ) (key value : CppString) (e : Engine)
      → Kept e
      → Fine (set platform sampler now key value e)
  unfolding set
  set-Kept sampler now key value e u =
      let new_cost = entry_cost platform key value in
      let old_cost = cost_at platform key (entry_at platform e.shards key.chars) in
      let r = make_room platform sampler key new_cost old_cost e in
      let made = make_room-Kept sampler key new_cost old_cost e u in
      if_holds Fine r.1
        (emplace-Kept key value now (memory_add (sub_size new_cost old_cost) r.0) made) made

  -- The operations that look a key up and drop it where its deadline has passed.
  module _ (now : ℕ) (key : CppString) (e : Engine) (u : Kept e) where
    pub get-Kept : Fine (get platform now key e)
    unfolding get
    get-Kept = elim (Option-cases (entry_at platform e.shards key.chars)) [
      | inl missing ↦ rw (missing, get) u
      | inr (entry, found) ↦
          rw (found, get)
            (if_holds Fine (is_expired entry now) (drop_entry-Kept key entry e u)
              (write_entry-Kept key _ e u))
    ]

    pub exists_key-Kept : Fine (exists_key platform now key e)
    unfolding exists_key
    exists_key-Kept = elim (Option-cases (entry_at platform e.shards key.chars)) [
      | inl missing ↦ rw (missing, exists_key) u
      | inr (entry, found) ↦
          rw (found, exists_key)
            (if_holds Fine (is_expired entry now) (drop_entry-Kept key entry e u)
              (write_entry-Kept key _ e u))
    ]

    pub expire_to-Kept : (deadline : ℕ) → Fine (expire_to platform now key deadline e)
    unfolding expire_to
    expire_to-Kept deadline = elim (Option-cases (entry_at platform e.shards key.chars)) [
      | inl missing ↦ rw (missing, expire_to) u
      | inr (entry, found) ↦
          rw (found, expire_to)
            (if_holds Fine (is_expired entry now) (drop_entry-Kept key entry e u)
              (write_entry-Kept key _ e u))
    ]

    pub pttl-Kept : Fine (pttl platform now key e)
    unfolding pttl
    pttl-Kept = elim (Option-cases (entry_at platform e.shards key.chars)) [
      | inl missing ↦ rw (missing, pttl) u
      | inr (entry, found) ↦
          rw (found, pttl)
            (if_holds Fine (ltb 0 entry.expire_at_ms)
              (if_holds Fine (leb entry.expire_at_ms now) (drop_entry-Kept key entry e u) u) u)
    ]

    pub persist-Kept : Fine (persist platform now key e)
    unfolding persist
    persist-Kept = elim (Option-cases (entry_at platform e.shards key.chars)) [
      | inl missing ↦ rw (missing, persist) u
      | inr (entry, found) ↦
          rw (found, persist)
            (if_holds Fine (is_expired entry now) (drop_entry-Kept key entry e u)
              (if_holds Fine (entry.expire_at_ms == 0) u (write_entry-Kept key _ e u)))
    ]

    read_number-Kept : Fine (read_number platform now key e)
    unfolding read_number
    read_number-Kept = elim (Option-cases (entry_at platform e.shards key.chars)) [
      | inl missing ↦ rw (missing, read_number) u
      | inr (entry, found) ↦
          rw (found, read_number)
            (if_holds Fine (is_expired entry now) (drop_entry-Kept key entry e u) u)
    ]

  pub exists-Kept :
      (now : ℕ) (keys : List CppString) (e : Engine) → Kept e → Fine (exists platform now keys e)
  unfolding exists
  exists-Kept now [] e u = u
  exists-Kept now (key ∷ keys) e u =
      exists-Kept now keys (exists_key platform now key e).0 (exists_key-Kept now key e u)

  pub del_key-Kept : (key : CppString) (e : Engine) → Kept e → Fine (del_key platform key e)
  unfolding del_key
  del_key-Kept key e u = elim (Option-cases (entry_at platform e.shards key.chars)) [
    | inl missing ↦ rw (missing, del_key) u
    | inr (entry, found) ↦ rw (found, del_key) (drop_entry-Kept key entry e u)
  ]

  pub del-Kept : (keys : List CppString) (e : Engine) → Kept e → Fine (del platform keys e)
  unfolding del
  del-Kept [] e u = u
  del-Kept (key ∷ keys) e u = del-Kept keys (del_key platform key e).0 (del_key-Kept key e u)

  write_number-Kept :
      (sampler : Sampler) (now : ℕ) (key : CppString) (val : ℤ) (deadline : ℕ)
      (old : Option DictEntry) (e : Engine)
      → Kept e
      → Fine (write_number platform sampler now key val deadline old e)
  unfolding write_number
  write_number-Kept sampler now key val deadline old e u =
      let new_value = platform.make (to_string_i64 val) in
      let new_cost = entry_cost platform key new_value in
      let old_cost = cost_at platform key old in
      let r = make_room platform sampler key new_cost old_cost e in
      let made = make_room-Kept sampler key new_cost old_cost e u in
      if_holds Fine r.1
        (store_entry-Kept key new_value deadline now (memory_add (sub_size new_cost old_cost) r.0)
          made)
        made

  step_number-Kept :
      (step : ℤ → ℤ) (sampler : Sampler) (now : ℕ) (key : CppString) (e : Engine)
      (current : Option (Current platform))
      → Kept e
      → Fine (step_number platform step sampler now key (e, current))
  step_number-Kept step sampler now key e none u = u
  step_number-Kept step sampler now key e (some (val, deadline, old)) u =
      write_number-Kept sampler now key (step val) deadline old e u

  module _ (sampler : Sampler) (now : ℕ) (key : CppString) (e : Engine) (u : Kept e) where
    pub incr-Kept : Fine (incr platform sampler now key e)
    unfolding incr
    incr-Kept =
        step_number-Kept increment sampler now key (read_number platform now key e).0
          (read_number platform now key e).1 (read_number-Kept now key e u)

    pub decr-Kept : Fine (decr platform sampler now key e)
    unfolding decr
    decr-Kept =
        step_number-Kept decrement sampler now key (read_number platform now key e).0
          (read_number platform now key e).1 (read_number-Kept now key e u)
