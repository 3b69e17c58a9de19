-- ===== src/Server/Replication.antt =====
-- A primary that serves commands and a replica that follows it (src/server/Server.cpp).
use distributed_in_memory_ke.Prelude.{
  ℕ, ◌*◌, ◌≤◌, ◌≡◌, ◌∙◌, ap, sym, true, List, [], ◌++◌, arith, Bytes, length,
}
use distributed_in_memory_ke.Protocol.Value.{serialize_items}
use distributed_in_memory_ke.Protocol.RoundTrip.{IsFrames}
use distributed_in_memory_ke.Storage.Entry.{Platform}
use distributed_in_memory_ke.Storage.AofLogger.{get_file_size}
use distributed_in_memory_ke.Storage.Meaning.{Contents, Shows, Unbounded}
use distributed_in_memory_ke.Net.Connection.{Connection}
use distributed_in_memory_ke.Server.State.{World}
use distributed_in_memory_ke.Server.FrameLoop.{joined}
use distributed_in_memory_ke.Server.Chunks.{IsOrderly}
use distributed_in_memory_ke.Server.Client.{ClientEnvironment}
use distributed_in_memory_ke.Server.Replay.{Environment}
use distributed_in_memory_ke.Server.Replica.{Replica, new_connection, continues, receive}
use distributed_in_memory_ke.Server.Greeting.{greeted}
use distributed_in_memory_ke.Server.PsyncStream.{seek, buffer_size, stream_rounds}
use distributed_in_memory_ke.Server.Mirror.{twice}
use distributed_in_memory_ke.Server.CatchUp.{receive-stream_rounds}
use distributed_in_memory_ke.Server.Commands.{Command}
use distributed_in_memory_ke.Server.Serving.{
  requests_of, meaning_all, NeverFalls, serve, serve-Logged,
}
use distributed_in_memory_ke.Server.Recovery.{dispatch_all-Shows}

module _ (platform : Platform) (reserve_limit depth : ℕ) (conn : Connection)
    (env : ClientEnvironment) (following : Environment) (rises : NeverFalls env.clock)
    (rises' : NeverFalls following.clock) (bound : ℕ) (within : (n : ℕ) → env.clock n ≤ bound)
    (within' : (n : ℕ) → following.clock n ≤ bound) where
  -- A replica comes to show what its primary shows. A primary with an empty log serves commands
  -- SET, GET, DEL, INCR and DECR; a replica with an empty log, that starts with the same contents
  -- and no deadlines, reads behind the greeting, in any chunks, what `2 * k` rounds of the PSYNC
  -- stream send, where the log is not longer than `k` buffers of 4096 bytes. Both engines have a
  -- shard and no memory limit. Then the replica's log is the primary's, and from a time on that no
  -- clock has passed, both show for every key the value that the commands mean on the abstract map,
  -- and no deadline. The clocks never fall, the requests are frames, and the log is an orderly
  -- buffer: below 2 ^ 63 - 2 bytes and the depth of the parser, with no minus sign behind a `$`.
  pub receive-serve :
      (cs : List Command) (w : World) (r : Replica) (m : Contents) (chunks : List Bytes) (k : ℕ)
      → IsFrames reserve_limit (requests_of cs)
      → Unbounded w.storage.shards w.storage.max_memory_bytes
      → Unbounded r.world.storage.shards r.world.storage.max_memory_bytes
      → Shows platform 0 w.storage m
      → Shows platform 0 r.world.storage m
      → w.aof ≡ record { is_open = true; file = [] }
      → r.aof ≡ record { is_open = true; file = [] }
      → IsOrderly depth (serve platform env conn 0 cs w).aof.file
      → length (serve platform env conn 0 cs w).aof.file ≤ k * buffer_size
      → joined chunks
        ≡ greeted
            (stream_rounds
              (λ i. (serve platform env conn 0 cs w).aof.file)
              0
              (twice k)
              (seek (get_file_size r.aof))).sent
      → (r' : Replica) × (receive platform reserve_limit depth true following chunks
            (new_connection r)
          ≡ continues r')
        × (r'.aof ≡ (serve platform env conn 0 cs w).aof)
        × Shows platform bound r'.world.storage (meaning_all cs m)
        × Shows platform bound (serve platform env conn 0 cs w).storage (meaning_all cs m)
  receive-serve cs w r m chunks k oks u u' shows shows' fresh fresh' ok near e =
      let served = serve platform env conn 0 cs w in
      let (ds, oks', aof', le, all', seen) =
        serve-Logged platform reserve_limit env conn rises bound within cs 0 0 w m oks u
          (ap (λ a. a.is_open) fresh) shows (omega arith) in
      let file : serialize_items (requests_of ds) ≡ served.aof.file =
        sym (ap (λ a. a.file) aof' ∙ ap (λ a. a.file ++ serialize_items (requests_of ds)) fresh) in
      let caught_up =
        receive-stream_rounds platform reserve_limit depth true following chunks served.aof.file
          (requests_of ds) r k (ap (λ a. a.is_open) fresh') (rw fresh' (omega arith))
          (ap (λ a. a.file ++ serialize_items (requests_of ds)) fresh' ∙ file) (rw file ok) oks'
          (rw file near) e in
      (
        _,
        caught_up,
        ap (λ b. record { is_open = b; file = served.aof.file }) (sym (ap (λ a. a.is_open) aof')),
        rw (← all') (
            dispatch_all-Shows platform reserve_limit true following rises' bound within' ds
              r.applied 0 r.world m u' shows' (omega arith)),
        seen,
      )
