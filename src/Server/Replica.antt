-- ===== src/Server/Replica.antt =====
-- `Server::run_replica_worker` (src/server/Server.cpp): a connection of a replica to its primary. The
-- commands of the stream are dispatched without a log (a null pointer), so the replica's own log stands
-- beside the world here.
use distributed_in_memory_ke.Prelude.{
  ℕ, suc, ◌+◌, Bool, true, false, [], ◌∷◌, ◌++◌, List, Option, none, some, if◌then◌else◌, Bytes,
  codes, bytes_eq, length, take, drop,
}
use distributed_in_memory_ke.Std.Decimal.{to_string_u64}
use distributed_in_memory_ke.Protocol.Value.{RespValue, crlf}
use distributed_in_memory_ke.Protocol.Parser.{find_crlf}
use distributed_in_memory_ke.Storage.Entry.{Platform}
use distributed_in_memory_ke.Storage.AofLogger.{AofLogger, log_raw}
use distributed_in_memory_ke.Server.State.{World}
use distributed_in_memory_ke.Server.Dispatch.{dispatch}
use distributed_in_memory_ke.Server.Replay.{Environment, replay_call}
use distributed_in_memory_ke.Server.FrameLoop.{Next, go, Drained, waiting, settle}

-- `applied` counts the commands that have been dispatched.
pub record Replica : Type 0 where
  pub aof : AofLogger
  pub world : World
  pub applied : ℕ
  pub client_buffer : Bytes
  pub in_stream : Bool

-- What becomes of a chunk: the worker reads on; or it leaves the connection, since the primary has
-- refused; or the parser throws, or goes past a bound of the model.
pub data Received : Type 0 where
  continues : Replica → Received
  refused : Replica → Received
  lost : Received

-- What the worker sends first: how much of the log it has.
unfoldable pub psync_command : ℕ → Bytes
unfolding to_string_u64
psync_command offset =
    let offset_text = to_string_u64 offset in
    codes "*2"
    ++ (crlf
        ++ (codes "$5"
            ++ (crlf
                ++ (codes "PSYNC"
                    ++ (crlf
                        ++ (codes "$"
                            ++ (to_string_u64 (length offset_text)
                                ++ (crlf ++ (offset_text ++ crlf)))))))))

-- The state at the begin of a connection.
abbrev pub new_connection : Replica → Replica
new_connection r = record r { client_buffer = []; in_stream = false }

abbrev pub hello : Bytes
hello = codes "+CONTINUE"

module _ (platform : Platform) (reserve_limit depth : ℕ) (is_replica : Bool)
    (env : Environment) where
  -- A command of the stream; its response is dropped.
  unfoldable pub apply : RespValue → World × ℕ → Next (World × ℕ) ⊥
  apply request (w, n) =
      go (
        (dispatch platform (replay_call platform reserve_limit is_replica env n) request w).0,
        suc n,
      )

  abbrev pub apply_frames : Bytes → World × ℕ → Drained (World × ℕ) ⊥
  apply_frames = settle reserve_limit depth apply

  -- The frames of a buffer are applied, and what is left stays in it.
  unfoldable pub after_frames : AofLogger → Drained (World × ℕ) ⊥ → Received
  after_frames aof (waiting (w, n) rest) =
      continues
        (record { aof = aof; world = w; applied = n; client_buffer = rest; in_stream = true })
  after_frames aof _ = lost

  -- The bytes behind the answer of the primary.
  unfoldable pub on_remainder : Bytes → Replica → Received
  unfolding after_frames
  on_remainder [] r = continues (record r { client_buffer = []; in_stream = true })
  on_remainder (c ∷ remainder) r =
      after_frames (log_raw (c ∷ remainder) r.aof)
        (apply_frames (c ∷ remainder) (r.world, r.applied))

  -- Waiting for the answer, with the chunk in the buffer.
  unfoldable pub on_answer : Bytes → Option ℕ → Replica → Received
  unfolding on_remainder
  on_answer buffer none r = continues (record r { client_buffer = buffer })
  on_answer buffer (some pos) r =
      if bytes_eq (take pos buffer) hello then on_remainder (drop (pos + 2) buffer) r else refused r

  unfoldable pub on_chunk : Bytes → Replica → Received
  unfolding on_answer
  on_chunk data' r =
      if r.in_stream
      then after_frames (log_raw data' r.aof)
          (apply_frames (r.client_buffer ++ data') (r.world, r.applied))
      else on_answer (r.client_buffer ++ data') (find_crlf (r.client_buffer ++ data')) r

  -- The loop over what is read, until the connection ends.
  unfoldable pub receive : List Bytes → Replica → Received
  unfolding on_chunk
  receive [] r = continues r
  receive (chunk ∷ chunks) r = elim (on_chunk chunk r) [
    | continues r' ↦ receive chunks r'
    | refused r' ↦ refused r'
    | lost ↦ lost
  ]
