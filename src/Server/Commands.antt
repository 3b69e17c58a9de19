-- ===== src/Server/Commands.antt =====
-- The commands of a client that sets no deadlines, and what they mean for the contents of the store
-- (src/server/CommandDispatcher.cpp).
use distributed_in_memory_ke.Prelude.{
  ℕ, ◌≤◌, ◌≡◌, ◌∙◌, ap, refl, false, not, ◌&&◌, ltb, Bool-cases, Option-cases, inl, inr, List, [],
  ◌∷◌, arith, Bytes, codes, bytes_eq,
}
use mathlib.Core.List.{map}
use distributed_in_memory_ke.Protocol.Value.{
  RespValue, RespValues, array, bulk_string, nil, cons, size,
}
use distributed_in_memory_ke.Storage.Entry.{Platform}
use distributed_in_memory_ke.Storage.Evict.{Engine}
use distributed_in_memory_ke.Storage.Operations.{set, get, del, incr, decr, increment, decrement}
use distributed_in_memory_ke.Storage.KeptOperations.{
  set-Kept, get-Kept, del-Kept, incr-Kept, decr-Kept,
}
use distributed_in_memory_ke.Storage.Meaning.{
  Contents, Shows, Unbounded, Unbounded-IsClosed, put, remove, bump, set-Shows, get-Shows,
  del-Shows, incr-Shows, decr-Shows,
}
use distributed_in_memory_ke.Server.Request.{args_from, to_upper, is_mutating_command}
use distributed_in_memory_ke.Server.State.{World, Call, count_command, log_unless_bypassed}
use distributed_in_memory_ke.Server.Handlers.{Outcome, store}
use distributed_in_memory_ke.Server.Keys.{
  handle_set, handle_get, handle_del, handle_incr, handle_decr,
}
use distributed_in_memory_ke.Server.Dispatch.{run_command, checked_command, dispatch}

pub data Command : Type 0 where
  set_to : Bytes → Bytes → Command
  get_of : Bytes → Command
  del_of : Bytes → List Bytes → Command
  incr_of : Bytes → Command
  decr_of : Bytes → Command

abbrev pub bulk_strings : List Bytes → RespValues
bulk_strings [] = nil
bulk_strings (s ∷ texts) = cons (bulk_string s) (bulk_strings texts)

-- The name and the arguments.
abbrev pub words_of : Command → Bytes × List Bytes
words_of (set_to k s) = (codes "SET", k ∷ s ∷ [])
words_of (get_of k) = (codes "GET", k ∷ [])
words_of (del_of k ks) = (codes "DEL", k ∷ ks)
words_of (incr_of k) = (codes "INCR", k ∷ [])
words_of (decr_of k) = (codes "DECR", k ∷ [])

abbrev pub values_of : Command → RespValues
values_of c = cons (bulk_string (words_of c).0) (bulk_strings (words_of c).1)

abbrev pub request_of : Command → RespValue
request_of c = array (values_of c)

-- What a command makes of the contents.
abbrev pub meaning : Command → Contents → Contents
meaning (set_to k s) m = put k s m
meaning (get_of k) m = m
meaning (del_of k ks) m = remove (k ∷ ks) m
meaning (incr_of k) m = bump increment k m
meaning (decr_of k) m = bump decrement k m

args_from-bulk_strings : (texts : List Bytes) → args_from 0 (bulk_strings texts) ≡ texts
args_from-bulk_strings [] = refl
args_from-bulk_strings (s ∷ texts) = ap (λ t. s ∷ t) (args_from-bulk_strings texts)

pub log_unless_bypassed-storage :
    (call : Call) (text : Bytes) (w : World) → (log_unless_bypassed call text w).storage ≡ w.storage
unfolding log_unless_bypassed
log_unless_bypassed-storage call text w =
    elim (Bool-cases (call.has_aof && not call.bypass_readonly)) [
      | inl logs ↦ rw logs refl
      | inr silent ↦ rw silent refl
    ]

module _ (platform : Platform) (call : Call)
    (writes : (call.is_read_only && not call.bypass_readonly) ≡ false) where
  -- The handler of a command.
  abbrev pub handled : Command → World → Outcome
  handled (set_to k s) w = handle_set platform call (values_of (set_to k s)) w
  handled (get_of k) w = handle_get platform call (values_of (get_of k)) w
  handled (del_of k ks) w = handle_del platform call (values_of (del_of k ks)) w
  handled (incr_of k) w = handle_incr platform call (values_of (incr_of k)) w
  handled (decr_of k) w = handle_decr platform call (values_of (decr_of k)) w

  set-checked :
      (vs : RespValues) (w : World)
      → checked_command platform call (to_upper (codes "SET")) vs w ≡ handle_set platform call vs w
  unfolding checked_command run_command to_upper is_mutating_command bytes_eq
  set-checked vs w = ground arith

  get-checked :
      (vs : RespValues) (w : World)
      → checked_command platform call (to_upper (codes "GET")) vs w ≡ handle_get platform call vs w
  unfolding checked_command run_command to_upper is_mutating_command bytes_eq
  get-checked vs w = ground arith

  del-checked :
      (vs : RespValues) (w : World)
      → checked_command platform call (to_upper (codes "DEL")) vs w ≡ handle_del platform call vs w
  unfolding checked_command run_command to_upper is_mutating_command bytes_eq
  del-checked vs w = ground arith

  pub incr-checked :
      (vs : RespValues) (w : World)
      → checked_command platform call (to_upper (codes "INCR")) vs w
        ≡ handle_incr platform call vs w
  unfolding checked_command run_command to_upper is_mutating_command bytes_eq
  incr-checked vs w = ground arith

  decr-checked :
      (vs : RespValues) (w : World)
      → checked_command platform call (to_upper (codes "DECR")) vs w
        ≡ handle_decr platform call vs w
  unfolding checked_command run_command to_upper is_mutating_command bytes_eq
  decr-checked vs w = ground arith

  pub dispatch-handled :
      (c : Command) (w : World)
      → dispatch platform call (request_of c) w ≡ handled c (count_command w)
  unfolding dispatch
  dispatch-handled (set_to k s) w = set-checked _ (count_command w)
  dispatch-handled (get_of k) w = get-checked _ (count_command w)
  dispatch-handled (del_of k ks) w = del-checked _ (count_command w)
  dispatch-handled (incr_of k) w = incr-checked _ (count_command w)
  dispatch-handled (decr_of k) w = decr-checked _ (count_command w)

  -- What a command does to the storage engine.
  abbrev pub stored : Command → Engine → Engine
  stored (set_to k s) e =
      (set platform call.sampler call.now (platform.make k) (platform.make s) e).0
  stored (get_of k) e = (get platform call.now (platform.make k) e).0
  stored (del_of k ks) e = (del platform (map platform.make (k ∷ ks)) e).0
  stored (incr_of k) e = (incr platform call.sampler call.now (platform.make k) e).0
  stored (decr_of k) e = (decr platform call.sampler call.now (platform.make k) e).0

  handle_del-storage :
      (vs : RespValues) (ks : List Bytes) (w : World)
      → ltb (size vs) 2 ≡ false
      → args_from 1 vs ≡ ks
      → (handle_del platform call vs w).0.storage
        ≡ (del platform (map platform.make ks) w.storage).0
  unfolding handle_del
  handle_del-storage vs ks w enough same =
      let r = del platform (map platform.make ks) w.storage in
      elim (Bool-cases (ltb 0 r.1)) [
        | inl some' ↦ rw (enough, same, some') (log_unless_bypassed-storage call _ (store r.0 w))
        | inr none' ↦ rw (enough, same, none') refl
      ]

  handled-stored : (c : Command) (w : World) → (handled c w).0.storage ≡ stored c w.storage
  unfolding handle_set handle_get handle_del handle_incr handle_decr
  handled-stored (set_to k s) w =
      let r = set platform call.sampler call.now (platform.make k) (platform.make s) w.storage in
      elim (Bool-cases r.1) [
        | inl done ↦ rw done (log_unless_bypassed-storage call _ (store r.0 w))
        | inr refused ↦ rw refused refl
      ]
  handled-stored (get_of k) w = refl
  handled-stored (del_of k ks) w =
      handle_del-storage (values_of (del_of k ks)) (k ∷ ks) w (ground arith)
        (ap (λ t. k ∷ t) (args_from-bulk_strings ks))
  handled-stored (incr_of k) w =
      let r = incr platform call.sampler call.now (platform.make k) w.storage in
      elim (Option-cases r.1) [
        | inl refused ↦ rw refused refl
        | inr (val, done) ↦ rw done (log_unless_bypassed-storage call _ (store r.0 w))
      ]
  handled-stored (decr_of k) w =
      let r = decr platform call.sampler call.now (platform.make k) w.storage in
      elim (Option-cases r.1) [
        | inl refused ↦ rw refused refl
        | inr (val, done) ↦ rw done (log_unless_bypassed-storage call _ (store r.0 w))
      ]

  stored-Kept :
      (c : Command) (e : Engine)
      → Unbounded e.shards e.max_memory_bytes
      → Unbounded (stored c e).shards (stored c e).max_memory_bytes
  stored-Kept (set_to k s) e u =
      set-Kept platform Unbounded (Unbounded-IsClosed platform) call.sampler call.now
        (platform.make k) (platform.make s) e u
  stored-Kept (get_of k) e u =
      get-Kept platform Unbounded (Unbounded-IsClosed platform) call.now (platform.make k) e u
  stored-Kept (del_of k ks) e u =
      del-Kept platform Unbounded (Unbounded-IsClosed platform) (map platform.make (k ∷ ks)) e u
  stored-Kept (incr_of k) e u =
      incr-Kept platform Unbounded (Unbounded-IsClosed platform) call.sampler call.now
        (platform.make k) e u
  stored-Kept (decr_of k) e u =
      decr-Kept platform Unbounded (Unbounded-IsClosed platform) call.sampler call.now
        (platform.make k) e u

  stored-Shows :
      (c : Command) (since : ℕ) (e : Engine) (m : Contents)
      → Unbounded e.shards e.max_memory_bytes
      → Shows platform since e m
      → since ≤ call.now
      → Shows platform call.now (stored c e) (meaning c m)
  stored-Shows (set_to k s) since e m u shows later t j past =
      set-Shows platform since call.now e m u shows later call.sampler (platform.make k)
        (platform.make s) t j past
      ∙ rw (platform.make_chars k, platform.make_chars s) refl
  stored-Shows (get_of k) since e m u shows later t j past =
      get-Shows platform since call.now e m u shows later (platform.make k) t j past
  stored-Shows (del_of k ks) since e m u shows later t j past =
      del-Shows platform since call.now e m u shows later (k ∷ ks) t j past
  stored-Shows (incr_of k) since e m u shows later t j past =
      incr-Shows platform since call.now e m u shows later call.sampler (platform.make k) t j past
      ∙ rw (platform.make_chars k) refl
  stored-Shows (decr_of k) since e m u shows later t j past =
      decr-Shows platform since call.now e m u shows later call.sampler (platform.make k) t j past
      ∙ rw (platform.make_chars k) refl

  pub dispatch-stored :
      (c : Command) (w : World)
      → (dispatch platform call (request_of c) w).0.storage ≡ stored c w.storage
  dispatch-stored c w =
      ap (λ o. o.0.storage) (dispatch-handled c w) ∙ handled-stored c (count_command w)

  -- The server implements a map from keys to values: where a call may write and the engine has a
  -- shard and no limit and shows some contents without deadlines, a dispatch of SET, GET, DEL, INCR
  -- or DECR leaves such an engine, and from the time of the call on it shows the contents that the
  -- command means: SET puts a value, DEL removes its keys, INCR and DECR replace a number (a
  -- missing key counts as 0, another value stays), GET changes nothing.
  pub dispatch-Shows :
      (c : Command) (since : ℕ) (w : World) (m : Contents)
      → Unbounded w.storage.shards w.storage.max_memory_bytes
      → Shows platform since w.storage m
      → since ≤ call.now
      → Unbounded
          (dispatch platform call (request_of c) w).0.storage.shards
          (dispatch platform call (request_of c) w).0.storage.max_memory_bytes
        × Shows platform call.now (dispatch platform call (request_of c) w).0.storage (meaning c m)
  dispatch-Shows c since w m u shows later =
      rw (dispatch-stored c w)
        (stored-Kept c w.storage u, stored-Shows c since w.storage m u shows later)
