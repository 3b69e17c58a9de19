-- ===== src/Server/LogFrames.antt =====
-- The log as a sequence of frames: while clients are served (src/server/Server.cpp), and at a restart.
use distributed_in_memory_ke.Prelude.{
  ℕ, ◌≤◌, ◌<◌, ◌≡◌, ◌∙◌, ap, sym, refl, inl, inr, Bool, true, false, List, [], ◌++◌, append_assoc,
  append-nil, arith, Bytes, two63, length, drop, drop-append, Bool-cases,
}
use distributed_in_memory_ke.Protocol.Value.{
  RespValue, RespValues, nil, cons, size, serialize, serialize_items,
}
use distributed_in_memory_ke.Protocol.RoundTrip.{IsFrame, IsFrames, size-le}
use distributed_in_memory_ke.Storage.Entry.{Platform}
use distributed_in_memory_ke.Storage.AofLogger.{AofLogger, log}
use distributed_in_memory_ke.Net.Connection.{
  Connection, Written, wrote, too_many_rounds, write_bytes,
}
use distributed_in_memory_ke.Server.State.{World, Call, DispatchResult}
use distributed_in_memory_ke.Server.Dispatch.{dispatch}
use distributed_in_memory_ke.Server.Logging.{LogsFor}
use distributed_in_memory_ke.Server.LogEntries.{dispatch-Appends}
use distributed_in_memory_ke.Server.Branches.{if-cases}
use distributed_in_memory_ke.Server.Frames.{NextHolds, DrainedHolds, receive_all-Holds}
use distributed_in_memory_ke.Server.Client.{
  Session, Left, write_failed, streaming, quit, ClientEnvironment, new_session, client_call,
  after_response, on_response, handle_frame, handle_client,
}
use distributed_in_memory_ke.Server.Replay.{
  Environment, finished, replay, dispatch_all, replay-serialize,
}

abbrev snoc : RespValues → RespValue → RespValues
snoc nil v = cons v nil
snoc (cons w vs) v = cons w (snoc vs v)

serialize_items-snoc :
    (vs : RespValues) (v : RespValue)
    → serialize_items (snoc vs v) ≡ serialize_items vs ++ serialize v
unfolding serialize
serialize_items-snoc nil v = append-nil (serialize v)
serialize_items-snoc (cons w vs) v =
    rw (serialize_items-snoc vs v, append_assoc (serialize w) (serialize_items vs) (serialize v))

module _ (reserve_limit : ℕ) where
  IsFrames-snoc :
      (vs : RespValues) (v : RespValue)
      → IsFrames reserve_limit vs
      → IsFrame reserve_limit v
      → IsFrames reserve_limit (snoc vs v)
  IsFrames-snoc nil v oks ok = (ok, tt)
  IsFrames-snoc (cons w vs) v oks ok = (oks.0, IsFrames-snoc vs v oks.1 ok)

  -- The file is a sequence of printed frames.
  abbrev pub HoldsFrames : AofLogger → Type 0
  HoldsFrames aof = (vs : RespValues) × IsFrames reserve_limit vs × (aof.file ≡ serialize_items vs)

  log-HoldsFrames :
      (v : RespValue) (aof : AofLogger)
      → IsFrame reserve_limit v
      → HoldsFrames aof
      → HoldsFrames (log (serialize v) aof)
  unfolding log
  log-HoldsFrames v aof ok (vs, oks, same) =
      if-cases (λ (a : AofLogger). HoldsFrames a) aof.is_open
        (λ is. (
          snoc vs v,
          IsFrames-snoc vs v oks ok,
          ap (λ s. s ++ serialize v) same ∙ sym (serialize_items-snoc vs v),
        ))
        (λ f. (vs, oks, same))

  module _ (roomy : 3 ≤ reserve_limit) where
    LogsFor-IsFrame :
        (now_log : ℕ) (request logged : RespValue)
        → IsFrame reserve_limit request
        → LogsFor now_log request logged
        → IsFrame reserve_limit logged
    LogsFor-IsFrame now_log request logged ok (vs, is_array, inl (same, named)) = rw same ok
    LogsFor-IsFrame now_log request logged ok
          (vs, is_array, inr (named, time_val, rest, found, same)) =
        rw same (roomy, (tt, (tt, (tt, tt))))

    pub dispatch-HoldsFrames :
        (platform : Platform) (call : Call) (request : RespValue) (w : World)
        → IsFrame reserve_limit request
        → HoldsFrames w.aof
        → HoldsFrames (dispatch platform call request w).0.aof
    dispatch-HoldsFrames platform call request w ok holds =
        elim (dispatch-Appends platform call request w) [
          | inl same ↦ rw same holds
          | inr (logged, allowed, same) ↦ rw same (
              log-HoldsFrames logged w.aof (LogsFor-IsFrame call.now_log request logged ok allowed)
                holds)
        ]

    -- What a dispatch appends to the log is nothing or a printed frame.
    pub dispatch-appended :
        (platform : Platform) (call : Call) (request : RespValue) (w : World)
        → IsFrame reserve_limit request
        → (vs : RespValues) × IsFrames reserve_limit vs
          × (drop (length w.aof.file) (dispatch platform call request w).0.aof.file
              ≡ serialize_items vs)
    unfolding log serialize
    dispatch-appended platform call request w ok =
        let nothing : drop (length w.aof.file) w.aof.file ≡ [] =
          ap (drop (length w.aof.file)) (sym (append-nil w.aof.file)) ∙ drop-append w.aof.file [] in
        elim (dispatch-Appends platform call request w) [
          | inl same ↦ (nil, tt, ap (λ a. drop (length w.aof.file) a.file) same ∙ nothing)
          | inr (logged, allowed, same) ↦ elim (Bool-cases w.aof.is_open) [
            | inl on ↦ (
              cons logged nil,
              (LogsFor-IsFrame call.now_log request logged ok allowed, tt),
              rw (same, on)
                  (drop-append w.aof.file (serialize logged) ∙ sym (append-nil (serialize logged))),
            )
            | inr off ↦ (nil, tt, rw (same, off) nothing)
          ]
        ]

    abbrev pub SessionHolds : Session → Type 0
    SessionHolds s = HoldsFrames s.world.aof

    abbrev pub LeftHolds : Left → Type 0
    LeftHolds (write_failed s) = SessionHolds s
    LeftHolds (streaming s offset) = SessionHolds s
    LeftHolds (quit s) = SessionHolds s

    module _ (platform : Platform) (is_replica : Bool) (env : ClientEnvironment)
        (conn : Connection) where
      after_response-Holds :
          (result : DispatchResult) (s : Session) (ok : Bool)
          → SessionHolds s
          → NextHolds SessionHolds LeftHolds
              (after_response platform is_replica env conn result s ok)
      after_response-Holds result s false h = h
      after_response-Holds result s true h =
          if-cases (NextHolds SessionHolds LeftHolds) result.is_psync (λ is. h)
            (λ f.
              if-cases (NextHolds SessionHolds LeftHolds) result.close_connection (λ is. h)
                (λ f. h))

      on_response-Holds :
          (result : DispatchResult) (w : World) (s : Session) (written : Written)
          → HoldsFrames w.aof
          → NextHolds SessionHolds LeftHolds
              (on_response platform is_replica env conn result w s written)
      unfolding on_response
      on_response-Holds result w s (wrote ok total) h = after_response-Holds result _ ok h
      on_response-Holds result w s too_many_rounds h = h

      handle_frame-Holds :
          (request : RespValue) (s : Session)
          → IsFrame reserve_limit request
          → SessionHolds s
          → NextHolds SessionHolds LeftHolds (handle_frame platform is_replica env conn request s)
      unfolding handle_frame
      handle_frame-Holds request s ok h =
          let call = client_call platform is_replica env conn s.served in
          let out = dispatch platform call request s.world in
          on_response-Holds out.1 out.0 s
            (write_bytes (env.writers s.served) conn (serialize out.1.response))
            (dispatch-HoldsFrames platform call request s.world ok h)

      -- Whatever bytes a client sends, in whatever chunks, and however the connection ends, a log
      -- that is a sequence of printed frames stays one (where the parser can reserve three
      -- elements).
      pub handle_client-HoldsFrames :
          (depth : ℕ) (chunks : List Bytes) (w : World)
          → HoldsFrames w.aof
          → DrainedHolds SessionHolds LeftHolds
              (handle_client platform is_replica env conn reserve_limit depth chunks w)
      unfolding handle_client
      handle_client-HoldsFrames depth chunks w h =
          receive_all-Holds reserve_limit depth (handle_frame platform is_replica env conn)
            SessionHolds LeftHolds handle_frame-Holds chunks [] (new_session w) h

-- A restart replays the whole log: where the log is a sequence of printed frames, the replay ends
-- with an empty rest and in the state that dispatching these frames one after the other produces.
-- The log is shorter than 2 ^ 63 bytes and than the number of rounds, and no longer than the depth.
pub replay-HoldsFrames :
    (platform : Platform) (reserve_limit : ℕ) (is_replica : Bool) (env : Environment)
    (aof : AofLogger) (rounds depth : ℕ) (w : World)
    → HoldsFrames reserve_limit aof
    → length aof.file < two63
    → length aof.file ≤ depth
    → length aof.file < rounds
    → (vs : RespValues) × (serialize_items vs ≡ aof.file)
      × (replay platform reserve_limit is_replica env rounds depth 0 aof.file w
          ≡ finished (dispatch_all platform reserve_limit is_replica env 0 vs w) (size vs) [])
replay-HoldsFrames platform reserve_limit is_replica env aof rounds depth w (vs, oks, same) small
      deep long =
    let file : serialize_items vs ++ [] ≡ aof.file = append-nil (serialize_items vs) ∙ sym same in
    let bytes = ap length file in
    let bytes' = ap length same in
    (
      vs,
      sym same,
      rw (← file) (
          replay-serialize platform reserve_limit is_replica env vs rounds depth 0 [] w oks
            (inl refl) (omega arith) (omega arith) (omega (arith, size-le vs))
          ∙ ap (λ n. finished (dispatch_all platform reserve_limit is_replica env 0 vs w) n [])
              (omega arith)),
    )
