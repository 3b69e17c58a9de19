-- ===== src/Server/Reconnect.antt =====
-- A replica that reconnects (src/server/Server.cpp): the offset that it asks for counts the bytes of a
-- frame that the lost connection has cut, but the buffer that held them is gone.
use distributed_in_memory_ke.Prelude.{
  ℕ, zero, suc, ◌<◌, ◌≡◌, ◌∙◌, refl, ap, Bool, true, false, ◌||◌, ◌==◌, leb, Option, none, some,
  List, [], ◌∷◌, arith, Bytes, length,
}
use distributed_in_memory_ke.Protocol.Parser.{
  Parsed, incomplete, read_line, frame, on_line, parse_items, parse,
}
use distributed_in_memory_ke.Storage.Entry.{Platform}
use distributed_in_memory_ke.Storage.AofLogger.{log_raw}
use distributed_in_memory_ke.Server.State.{World}
use distributed_in_memory_ke.Server.Replay.{Environment}
use distributed_in_memory_ke.Server.FrameLoop.{waiting, drain, joined}
use distributed_in_memory_ke.Server.Chunks.{IsOrderly}
use distributed_in_memory_ke.Server.Replica.{
  Replica, new_connection, continues, after_frames, apply_frames, receive,
}
use distributed_in_memory_ke.Server.Greeting.{greeted}
use distributed_in_memory_ke.Server.ReplicaStream.{receive-joined}
use distributed_in_memory_ke.Protocol.Value.{RespValues}

-- The bytes that a frame can start with.
abbrev pub starts_frame : ℕ → Bool
starts_frame c = (c == b'+') || ((c == b'-') || ((c == b':') || ((c == b'$') || (c == b'*'))))

module _ (reserve_limit : ℕ) (c : ℕ) (other : starts_frame c ≡ false) where
  frame-unknown :
      (items : ℕ → ℕ → Parsed RespValues) (buffer content : Bytes) (p : ℕ)
      → frame reserve_limit items buffer c content p ≡ incomplete
  frame-unknown items buffer content p = ground arith

  on_line-unknown :
      (items : ℕ → ℕ → Parsed RespValues) (buffer : Bytes) (line : Option (Bytes × ℕ))
      → on_line reserve_limit items buffer c line ≡ incomplete
  on_line-unknown items buffer none = refl
  on_line-unknown items buffer (some ([], p)) = refl
  on_line-unknown items buffer (some (d ∷ content, p)) = frame-unknown items buffer content p

  -- A buffer that starts with another byte stays as it is.
  pub parse-unknown :
      (depth : ℕ) (s : Bytes) → 0 < depth → parse reserve_limit depth (c ∷ s) ≡ incomplete
  unfolding parse
  parse-unknown zero s h = elim h [ ]
  parse-unknown (suc depth) s h =
      let inside : leb (suc (length s)) 0 ≡ false = ground arith in
      rw inside
        (on_line-unknown (parse_items reserve_limit depth (c ∷ s)) (c ∷ s) (read_line (c ∷ s) 0))

  apply_frames-unknown :
      (platform : Platform) (depth : ℕ) (is_replica : Bool) (env : Environment) (s : Bytes)
      (state : World × ℕ)
      → 0 < depth
      → apply_frames platform reserve_limit depth is_replica env (c ∷ s) state
        ≡ waiting state (c ∷ s)
  unfolding drain
  apply_frames-unknown platform depth is_replica env s state deep =
      rw (parse-unknown depth s deep, drain) refl

  -- A replica that is sent a stream whose first byte no frame starts with, as after a connection
  -- that was lost within a frame, applies nothing of an orderly stream: it appends all of it to its
  -- log and to its buffer, and its world stays as it was.
  pub receive-unknown :
      (platform : Platform) (depth : ℕ) (is_replica : Bool) (env : Environment)
      (chunks : List Bytes) (stream : Bytes) (r : Replica)
      → joined chunks ≡ greeted (c ∷ stream)
      → IsOrderly depth (c ∷ stream)
      → receive platform reserve_limit depth is_replica env chunks (new_connection r)
        ≡ continues (record {
          aof = log_raw (c ∷ stream) r.aof;
          world = r.world;
          applied = r.applied;
          client_buffer = c ∷ stream;
          in_stream = true;
        })
  unfolding after_frames
  receive-unknown platform depth is_replica env chunks stream r e ok =
      receive-joined platform reserve_limit depth is_replica env chunks (c ∷ stream) r e ok
      ∙ ap (after_frames platform reserve_limit depth is_replica env (log_raw (c ∷ stream) r.aof)) (
          apply_frames-unknown platform depth is_replica env stream (r.world, r.applied)
            (omega (arith, ok.1)))
