-- ===== src/Server/CatchUp.antt =====
-- A replica that connects to its primary (src/server/Server.cpp): what is read from the primary's log
-- and what the replica makes of it.
use distributed_in_memory_ke.Prelude.{
  false, ◌<◌, two63, ℕ, ◌+◌, ◌*◌, ◌≤◌, ◌≡◌, ◌∙◌, ap, sym, refl, Bool, true, List, [], ◌++◌,
  append-nil, arith, Bytes, length, length-append, drop-append,
}
use distributed_in_memory_ke.Protocol.Value.{RespValues, size, serialize_items}
use distributed_in_memory_ke.Protocol.RoundTrip.{IsFrames}
use distributed_in_memory_ke.Storage.Entry.{Platform}
use distributed_in_memory_ke.Storage.AofLogger.{AofLogger, log_raw, get_file_size}
use distributed_in_memory_ke.Server.Replay.{Environment, dispatch_all}
use distributed_in_memory_ke.Server.FrameLoop.{joined}
use distributed_in_memory_ke.Server.Chunks.{IsOrderly}
use distributed_in_memory_ke.Server.Replica.{Replica, new_connection, continues, receive}
use distributed_in_memory_ke.Server.Greeting.{greeted, parse-nil}
use distributed_in_memory_ke.Server.ReplicaStream.{receive-serialize}
use distributed_in_memory_ke.Server.PsyncStream.{seek, seek_small, buffer_size, stream_rounds}
use distributed_in_memory_ke.Server.Mirror.{twice, stream_rounds_complete}

-- What a primary with this log sends to a replica with that one.
sent_from :
    (file more : Bytes) (aof : AofLogger) (m : ℕ)
    → aof.is_open ≡ true
    → length aof.file < two63
    → aof.file ++ more ≡ file
    → length more ≤ m * buffer_size
    → (stream_rounds (λ k. file) 0 (twice m) (seek (get_file_size aof))).sent ≡ more
unfolding get_file_size
sent_from file more aof m open' small whole near =
    let bytes = length-append aof.file more in
    let total = ap length whole in
    rw (open', seek_small (length aof.file) small)
      (stream_rounds_complete (length aof.file) file m
          (record { position = length aof.file; failed = false; sent = [] }) refl (omega arith)
          (omega arith)
        ∙ rw (← whole) (drop-append aof.file more))

pub log_raw-open :
    (text : Bytes) (aof : AofLogger)
    → aof.is_open ≡ true
    → log_raw text aof ≡ record { is_open = true; file = aof.file ++ text }
unfolding log_raw
log_raw-open text aof open' = rw open'

-- A replica catches up. The replica's open log is a beginning of the primary's, the rest are the
-- prints of frames and not longer than `m` buffers of 4096 bytes: then what `2 * m` rounds of the
-- PSYNC stream send from the replica's offset on, read behind the greeting in any chunks, leaves
-- the replica with the whole of the primary's log, with every frame of the rest dispatched once and
-- in order, and with nothing left in its buffer. The rest is an orderly buffer: below 2 ^ 63 - 2
-- bytes and the depth of the parser, with no minus sign behind a `$`; and the replica's log is
-- shorter than 2 ^ 63 bytes.
pub receive-stream_rounds :
    (platform : Platform) (reserve_limit depth : ℕ) (is_replica : Bool) (env : Environment)
    (chunks : List Bytes) (file : Bytes) (vs : RespValues) (r : Replica) (m : ℕ)
    → r.aof.is_open ≡ true
    → length r.aof.file < two63
    → r.aof.file ++ serialize_items vs ≡ file
    → IsOrderly depth (serialize_items vs)
    → IsFrames reserve_limit vs
    → length (serialize_items vs) ≤ m * buffer_size
    → joined chunks
      ≡ greeted (stream_rounds (λ k. file) 0 (twice m) (seek (get_file_size r.aof))).sent
    → receive platform reserve_limit depth is_replica env chunks (new_connection r)
      ≡ continues (record {
        aof = record { is_open = true; file = file };
        world = dispatch_all platform reserve_limit is_replica env r.applied vs r.world;
        applied = r.applied + size vs;
        client_buffer = [];
        in_stream = true;
      })
receive-stream_rounds platform reserve_limit depth is_replica env chunks file vs r m open' low whole
      ok oks near e =
    let stream = append-nil (serialize_items vs) in
    let sent = sent_from file (serialize_items vs) r.aof m open' low whole near ∙ sym stream in
    let aof =
      ap (λ s. log_raw s r.aof) stream
      ∙ log_raw-open (serialize_items vs) r.aof open'
      ∙ ap (λ s. record { is_open = true; file = s }) whole in
    receive-serialize platform reserve_limit depth is_replica env chunks vs [] r
      (e ∙ ap greeted sent) (rw stream ok) oks (parse-nil reserve_limit depth (omega (arith, ok.1)))
    ∙ ap
        (λ a. continues (record {
          aof = a;
          world = dispatch_all platform reserve_limit is_replica env r.applied vs r.world;
          applied = r.applied + size vs;
          client_buffer = [];
          in_stream = true;
        }))
        aof
