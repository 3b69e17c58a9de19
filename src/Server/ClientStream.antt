-- ===== src/Server/ClientStream.antt =====
-- A client's stream (src/server/Server.cpp), however it is cut into chunks.
use distributed_in_memory_ke.Prelude.{
  ℕ, ◌≡◌, ◌∙◌, sym, Bool, List, [], ◌∷◌, ◌++◌, arith, Bytes, lengths,
}
use distributed_in_memory_ke.Protocol.Value.{RespValues, serialize_items}
use distributed_in_memory_ke.Protocol.Parser.{incomplete, parse}
use distributed_in_memory_ke.Protocol.RoundTrip.{IsFrames}
use distributed_in_memory_ke.Storage.Entry.{Platform}
use distributed_in_memory_ke.Net.Connection.{Connection}
use distributed_in_memory_ke.Server.State.{World}
use distributed_in_memory_ke.Server.FrameLoop.{joined}
use distributed_in_memory_ke.Server.Chunks.{IsOrderly, receive_all-joined}
use distributed_in_memory_ke.Server.Frames.{handle_all, drain-serialize}
use distributed_in_memory_ke.Server.Client.{
  ClientEnvironment, new_session, handle_frame, handle_client,
}

module _ (platform : Platform) (is_replica : Bool) (env : ClientEnvironment) (conn : Connection)
    (reserve_limit depth : ℕ) (w : World) where
  -- What a connection comes to does not depend on how its stream is cut: two non-empty lists of
  -- chunks that join to the same orderly stream leave the same world, the same bytes sent and the
  -- same bytes waiting, or end the connection in the same way. An orderly stream is below 2 ^ 63 -
  -- 2 bytes and the depth of the parser, and has no minus sign behind a `$`.
  pub handle_client-joined :
      (chunk chunk' : Bytes) (chunks chunks' : List Bytes)
      → IsOrderly depth (chunk ++ joined chunks)
      → chunk ++ joined chunks ≡ chunk' ++ joined chunks'
      → handle_client platform is_replica env conn reserve_limit depth (chunk ∷ chunks) w
        ≡ handle_client platform is_replica env conn reserve_limit depth (chunk' ∷ chunks') w
  unfolding handle_client
  handle_client-joined chunk chunk' chunks chunks' ok same =
      let whole =
        receive_all-joined reserve_limit depth (handle_frame platform is_replica env conn) in
      whole chunk chunks [] (new_session w) ok
      ∙ rw same (sym (whole chunk' chunks' [] (new_session w) (rw (← same) ok)))

  -- A connection whose orderly stream is the prints of frames and an incomplete text handles
  -- exactly these frames, one after the other and in order, until a frame ends the connection; else
  -- the incomplete text waits in the buffer.
  pub handle_client-serialize :
      (chunk : Bytes) (chunks : List Bytes) (vs : RespValues) (rest : Bytes)
      → IsOrderly depth (chunk ++ joined chunks)
      → chunk ++ joined chunks ≡ serialize_items vs ++ rest
      → IsFrames reserve_limit vs
      → parse reserve_limit depth rest ≡ incomplete
      → handle_client platform is_replica env conn reserve_limit depth (chunk ∷ chunks) w
        ≡ handle_all reserve_limit depth
            (handle_frame platform is_replica env conn)
            vs
            rest
            (new_session w)
  unfolding handle_client
  handle_client-serialize chunk chunks vs rest ok same oks short =
      let handle = handle_frame platform is_replica env conn in
      let ok' : IsOrderly depth (serialize_items vs ++ rest) = rw (← same) ok in
      receive_all-joined reserve_limit depth handle chunk chunks [] (new_session w) ok
      ∙ rw same (
          drain-serialize reserve_limit depth handle vs _ rest (new_session w) oks short
            (omega (arith, ok'.0)) (omega (lengths, ok'.1)) (omega lengths))
