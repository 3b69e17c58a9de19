-- ===== src/Server/LoopCommands.antt =====
-- DEL and EXISTS as a whole (src/server/CommandDispatcher.cpp, src/storage/StorageEngine.cpp): what a
-- dispatch of them comes to, in the terms of their loop over keys.
use distributed_in_memory_ke.Prelude.{
  subst, codes, bytes_eq, bytes_eq_sound, pos, append-nil, drop-append, ltb, false, Bool-cases, inl,
  inr, ℕ, ◌≡◌, ◌∙◌, ap, sym, refl, some, true, List, [], arith, Bytes, drop, length,
}
use mathlib.Core.List.{map}
use distributed_in_memory_ke.Protocol.Value.{
  RespValue, RespValues, nil, cons, simple_string, error, integer, bulk_string, array, null, size,
  serialize, string_value,
}
use distributed_in_memory_ke.Server.Request.{to_upper, args_from}
use distributed_in_memory_ke.Server.Handlers.{Outcome}
use distributed_in_memory_ke.Server.Keys.{handle_del, handle_exists}
use distributed_in_memory_ke.Storage.AofLogger.{log}
use distributed_in_memory_ke.Storage.Entry.{Platform}
use distributed_in_memory_ke.Storage.Evict.{Engine, Sampler}
use distributed_in_memory_ke.Storage.Operations.{del, exists}
use distributed_in_memory_ke.Server.State.{World, count_command, reply, log_unless_bypassed}
use distributed_in_memory_ke.Server.Dispatch.{
  is_command_name, run_command, checked_command, dispatch,
}
use distributed_in_memory_ke.Server.System.{
  KeyLoop, deletes, checks, loop_of, loop_text, appended, named_loop, primary_call,
}

module _ (platform : Platform) where
  -- The operation as a whole.
  abbrev pub run : KeyLoop → List Bytes → Engine → Engine × ℕ
  run deletes keys e = del platform (map platform.make keys) e
  run (checks now) keys e = exists platform now (map platform.make keys) e

  module _ (now now_log : ℕ) (sampler : Sampler) where
    checked-del :
        (cmd : Bytes) (vs : RespValues) (v : World)
        → cmd ≡ codes "DEL"
        → checked_command platform (primary_call now now_log sampler) cmd vs v
          ≡ handle_del platform (primary_call now now_log sampler) vs v
    unfolding checked_command run_command bytes_eq
    checked-del cmd vs v same = rw same refl

    checked-exists :
        (cmd : Bytes) (vs : RespValues) (v : World)
        → cmd ≡ codes "EXISTS"
        → checked_command platform (primary_call now now_log sampler) cmd vs v
          ≡ handle_exists platform (primary_call now now_log sampler) vs v
    unfolding checked_command run_command bytes_eq
    checked-exists cmd vs v same = rw same refl

    -- What a dispatch of the command comes to, in parts.
    abbrev pub Comes : RespValue → KeyLoop → List Bytes → World → Outcome → Type 0
    Comes request loop keys v (v', result) =
        (v'.storage ≡ (run loop keys v.storage).0)
        × (v'.commands_processed ≡ v.commands_processed)
        × (v'.connected_clients ≡ v.connected_clients)
        × (appended v v' ≡ loop_text loop request (run loop keys v.storage).1)
        × (result ≡ reply (integer (pos (run loop keys v.storage).1)))

    drop_all : (file : Bytes) → drop (length file) file ≡ []
    drop_all file = ap (drop (length file)) (sym (append-nil file)) ∙ drop-append file []

    handle_del-Comes :
        (name u : RespValue) (us : RespValues) (v : World)
        → v.aof.is_open ≡ true
        → Comes
            (array (cons name (cons u us)))
            deletes
            (args_from 0 (cons u us))
            v
            (handle_del platform (primary_call now now_log sampler) (cons name (cons u us)) v)
    unfolding handle_del log_unless_bypassed log
    handle_del-Comes name u us v open' =
        let vs = cons name (cons u us) in
        let few : ltb (size vs) 2 ≡ false = ground arith in
        elim (Bool-cases (ltb 0 (run deletes (args_from 0 (cons u us)) v.storage).1)) [
          | inl some' ↦
              rw (few, some', open')
                (refl, refl, refl, drop-append v.aof.file (serialize (array vs)), refl)
          | inr none' ↦ rw (few, none') (refl, refl, refl, drop_all v.aof.file, refl)
        ]

    handle_exists-Comes :
        (name u : RespValue) (us : RespValues) (v : World)
        → Comes
            (array (cons name (cons u us)))
            (checks now)
            (args_from 0 (cons u us))
            v
            (handle_exists platform (primary_call now now_log sampler) (cons name (cons u us)) v)
    unfolding handle_exists
    handle_exists-Comes name u us v =
        let few : ltb (size (cons name (cons u us))) 2 ≡ false = ground arith in
        rw few (refl, refl, refl, drop_all v.aof.file, refl)

    named-Comes :
        (cmd : Bytes) (name u : RespValue) (us : RespValues) (loop : KeyLoop) (keys : List Bytes)
        (v : World)
        → v.aof.is_open ≡ true
        → named_loop now cmd (args_from 0 (cons u us)) ≡ some (loop, keys)
        → Comes (array (cons name (cons u us))) loop keys v (
            checked_command platform
              (primary_call now now_log sampler)
              cmd
              (cons name (cons u us))
              v)
    named-Comes cmd name u us loop keys v open' is =
        let vs = cons name (cons u us) in
        let args = args_from 0 (cons u us) in
        let out = checked_command platform (primary_call now now_log sampler) cmd vs v in
        elim (Bool-cases (bytes_eq cmd (codes "DEL"))) [
          | inl del' ↦
              let same : ◌≡◌ {A = KeyLoop × List Bytes} (deletes, args) (loop, keys) =
                cc (rw del' at is) in
              subst (λ p. Comes (array vs) p.0 p.1 v out) same
                (rw (checked-del cmd vs v (bytes_eq_sound cmd (codes "DEL") del'))
                  (handle_del-Comes name u us v open'))
          | inr other ↦ elim (Bool-cases (bytes_eq cmd (codes "EXISTS"))) [
            | inl exists' ↦
                let same : ◌≡◌ {A = KeyLoop × List Bytes} (checks now, args) (loop, keys) =
                  cc (rw (other, exists') at is) in
                subst (λ p. Comes (array vs) p.0 p.1 v out) same
                  (rw (checked-exists cmd vs v (bytes_eq_sound cmd (codes "EXISTS") exists'))
                    (handle_exists-Comes name u us v))
            | inr neither ↦ absurd (cc (rw (other, neither) at is))
          ]
        ]

    pub dispatch-Comes :
        (request : RespValue) (loop : KeyLoop) (keys : List Bytes) (v : World)
        → v.aof.is_open ≡ true
        → loop_of now request ≡ some (loop, keys)
        → Comes request loop keys
            (count_command v)
            (dispatch platform (primary_call now now_log sampler) request v)
    unfolding dispatch
    dispatch-Comes (array (cons name (cons u us))) loop keys v open' is =
        elim (Bool-cases (is_command_name name)) [
          | inl named ↦ rw named (
              named-Comes (to_upper (string_value name)) name u us loop keys (count_command v) open'
                (rw named at is))
          | inr unnamed ↦ absurd (cc (rw unnamed at is))
        ]
    dispatch-Comes (array (cons name nil)) loop keys v open' is = cc
    dispatch-Comes (array nil) loop keys v open' is = cc
    dispatch-Comes (simple_string s) loop keys v open' is = cc
    dispatch-Comes (error s) loop keys v open' is = cc
    dispatch-Comes (integer n) loop keys v open' is = cc
    dispatch-Comes (bulk_string s) loop keys v open' is = cc
    dispatch-Comes null loop keys v open' is = cc
