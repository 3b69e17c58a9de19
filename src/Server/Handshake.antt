-- ===== src/Server/Handshake.antt =====
-- The handshake of a replica and its primary (src/server/Server.cpp).
use distributed_in_memory_ke.Prelude.{
  ℕ, ◌≤◌, ◌<◌, ◌≡◌, ◌∙◌, ap, sym, refl, inl, inr, Bool, Bool-cases, some, bytes_eq, true, false,
  List, [], ◌∷◌, ◌++◌, append-nil, arith, Bytes, codes, two63, two64, length,
}
use distributed_in_memory_ke.Std.Decimal.{to_string_u64, from_chars_u64}
use distributed_in_memory_ke.Std.DecimalRoundTrip.{from_chars-to_string_u64}
use distributed_in_memory_ke.Protocol.Value.{
  RespValue, RespValues, array, bulk_string, simple_string, nil, cons, crlf, size, serialize,
  serialize_items,
}
use distributed_in_memory_ke.Storage.Entry.{Platform}
use distributed_in_memory_ke.Net.Connection.{
  Connection, holds_fd, Written, wrote, too_many_rounds, write_bytes,
}
use distributed_in_memory_ke.Net.Writing.{IsWritten, write_bytes-IsWritten}
use distributed_in_memory_ke.Server.State.{World, Call, DispatchResult, reply, count_command}
use distributed_in_memory_ke.Server.Request.{arg, to_upper, is_mutating_command}
use distributed_in_memory_ke.Server.Handlers.{handle_psync}
use distributed_in_memory_ke.Server.Dispatch.{run_command, checked_command, dispatch}
use distributed_in_memory_ke.Server.FrameLoop.{stop, stopped, joined}
use distributed_in_memory_ke.Server.Chunks.{IsOrderly}
use distributed_in_memory_ke.Server.Frames.{handle_all}
use distributed_in_memory_ke.Server.Client.{
  Session, Left, write_failed, streaming, quit, ClientEnvironment, new_session, client_call,
  on_response, handle_frame, handle_client,
}
use distributed_in_memory_ke.Server.ClientStream.{handle_client-serialize}
use distributed_in_memory_ke.Server.Replica.{psync_command, hello}
use distributed_in_memory_ke.Server.PsyncStream.{seek, seek_small}
use distributed_in_memory_ke.Server.Greeting.{parse-nil}

-- The command as a frame.
abbrev pub psync_request : ℕ → RespValue
psync_request offset =
    array (cons (bulk_string (codes "PSYNC")) (cons (bulk_string (to_string_u64 offset)) nil))

pub psync_command-serialize : (offset : ℕ) → serialize (psync_request offset) ≡ psync_command offset
unfolding psync_command serialize
psync_command-serialize offset =
    let offset_text = to_string_u64 offset in
    let argument = b'$' ∷ (to_string_u64 (length offset_text) ++ (crlf ++ (offset_text ++ crlf))) in
    ap (λ s. codes "*2" ++ (crlf ++ (codes "$5" ++ (crlf ++ (codes "PSYNC" ++ (crlf ++ s))))))
      (append-nil argument)

-- What a primary answers.
abbrev pub continue_at : ℕ → DispatchResult
continue_at offset = record (reply (simple_string (codes "CONTINUE"))) {
  is_psync = true;
  psync_offset = offset;
}

checked_command-psync :
    (platform : Platform) (call : Call) (vs : RespValues) (w : World)
    → checked_command platform call (to_upper (codes "PSYNC")) vs w ≡ handle_psync call vs w
unfolding checked_command run_command to_upper is_mutating_command bytes_eq
checked_command-psync platform call vs w = elim (Bool-cases call.is_read_only) [
  | inl is ↦ elim (Bool-cases call.bypass_readonly) [
    | inl bypass ↦ rw (is, bypass) refl
    | inr other ↦ rw (is, other) refl
  ]
  | inr other ↦ rw other refl
]

handle_psync-offset :
    (call : Call) (vs : RespValues) (w : World) (offset : ℕ) (rest : Bytes)
    → size vs ≡ 2
    → from_chars_u64 (arg vs 1) ≡ some (offset, rest)
    → handle_psync call vs w ≡ (w, continue_at offset)
unfolding handle_psync
handle_psync-offset call vs w offset rest two read = rw (two, read) refl

pub dispatch-psync :
    (platform : Platform) (call : Call) (offset : ℕ) (w : World)
    → offset < two64
    → dispatch platform call (psync_request offset) w ≡ (count_command w, continue_at offset)
unfolding dispatch
dispatch-psync platform call offset w small =
    checked_command-psync platform call _ (count_command w)
    ∙ handle_psync-offset call
        (cons (bulk_string (codes "PSYNC")) (cons (bulk_string (to_string_u64 offset)) nil))
        (count_command w) offset [] refl (from_chars-to_string_u64 offset small)

-- Where the primary leaves its loop: its stream stands at the offset, behind the answer that the replica
-- waits for, or the answer could not be written.
abbrev pub Answered : ℕ → World → Left → Type 0
Answered offset w (streaming s from) =
    (from ≡ offset)
    × (seek from ≡ record { position = offset; failed = false; sent = [] })
    × (s.sent ≡ hello ++ crlf)
    × (s.world ≡ count_command w)
Answered offset w (write_failed s) = s.world ≡ count_command w
Answered offset w (quit s) = ⊥

module _ (platform : Platform) (is_replica : Bool) (env : ClientEnvironment)
    (conn : Connection) where
  on_response-psync :
      (offset : ℕ) (w : World) (written : Written)
      → offset < two63
      → IsWritten 11 written
      → (left : Left) × (on_response platform is_replica env conn
            (continue_at offset)
            (count_command w)
            (new_session w)
            written
          ≡ stop left)
        × Answered offset w left
  unfolding on_response serialize
  on_response-psync offset w (wrote true total) small all =
      (_, refl, (refl, seek_small offset small, rw all refl, refl))
  on_response-psync offset w (wrote false total) small some' = (_, refl, refl)
  on_response-psync offset w too_many_rounds small h = absurd h

  handle_frame-dispatch :
      (request : RespValue) (s : Session) (out : World × DispatchResult)
      → dispatch platform (client_call platform is_replica env conn s.served) request s.world ≡ out
      → handle_frame platform is_replica env conn request s
        ≡ on_response platform is_replica env conn out.1 out.0 s
            (write_bytes (env.writers s.served) conn (serialize out.1.response))
  unfolding handle_frame
  handle_frame-dispatch request s out e =
      ap
        (λ o.
          on_response platform is_replica env conn o.1 o.0 s
            (write_bytes (env.writers s.served) conn (serialize o.1.response)))
        e

  handle_frame-psync :
      (offset : ℕ) (w : World)
      → holds_fd conn.fd ≡ true
      → offset < two63
      → (left : Left) × (handle_frame platform is_replica env conn
            (psync_request offset)
            (new_session w)
          ≡ stop left)
        × Answered offset w left
  unfolding serialize
  handle_frame-psync offset w open' small =
      let answer = hello ++ crlf in
      let (left, stops, answered) =
        on_response-psync offset w (write_bytes (env.writers 0) conn answer) small
          (write_bytes-IsWritten (env.writers 0) conn answer open') in
      let response =
        dispatch-psync platform (client_call platform is_replica env conn 0) offset w
          (omega arith) in
      (
        left,
        handle_frame-dispatch (psync_request offset) (new_session w) _ response ∙ stops,
        answered,
      )

  -- A primary that is sent a replica's PSYNC command, in any chunks, leaves its loop: either it has
  -- sent exactly the greeting that the replica waits for and streams from the offset that the
  -- replica has named, where the file is then positioned, or the greeting could not be written; the
  -- world has one command more counted and is else as it was. The connection has a descriptor, the
  -- offset is below 2 ^ 63, the command is an orderly stream and the parser can reserve two
  -- elements.
  pub handle_client-psync :
      (reserve_limit depth : ℕ) (chunk : Bytes) (chunks : List Bytes) (offset : ℕ) (w : World)
      → holds_fd conn.fd ≡ true
      → offset < two63
      → 2 ≤ reserve_limit
      → IsOrderly depth (psync_command offset)
      → chunk ++ joined chunks ≡ psync_command offset
      → (left : Left) × (handle_client platform is_replica env conn reserve_limit depth
            (chunk ∷ chunks)
            w
          ≡ stopped left)
        × Answered offset w left
  unfolding handle_all serialize
  handle_client-psync reserve_limit depth chunk chunks offset w open' small roomy ok same =
      let vs = cons (psync_request offset) nil in
      let text : psync_command offset ≡ serialize_items vs ++ [] =
        sym (psync_command-serialize offset) ∙ sym (append-nil _) ∙ sym (append-nil _) in
      let (left, stops, answered) = handle_frame-psync offset w open' small in
      (
        left,
        handle_client-serialize platform is_replica env conn reserve_limit depth w chunk chunks vs
              [] (rw same ok) (same ∙ text) ((roomy, (tt, (tt, tt))), tt)
              (parse-nil reserve_limit depth (omega (arith, ok.1)))
            ∙ rw (stops, handle_all) refl,
        answered,
      )
