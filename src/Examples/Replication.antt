-- ===== src/Examples/Replication.antt =====
-- Runs of the laws of replication (src/server/Server.cpp).
use distributed_in_memory_ke.Prelude.{
  ◌+◌, ◌≤◌, ◌≡◌, ◌++◌, refl, true, false, [], ◌∷◌, arith, Bytes, codes, length, drop, append-nil,
  sym,
}
use distributed_in_memory_ke.Std.Decimal.{to_string_u64}
use distributed_in_memory_ke.Protocol.Value.{size, serialize, serialize_items}
use distributed_in_memory_ke.Protocol.Progress.{no_negative_bulk}
use distributed_in_memory_ke.Storage.AofLogger.{log_raw}
use distributed_in_memory_ke.Server.Replay.{dispatch_all}
use distributed_in_memory_ke.Server.Replica.{continues, new_connection, receive}
use distributed_in_memory_ke.Server.Greeting.{greeted}
use distributed_in_memory_ke.Server.PsyncStream.{seek, stream_rounds}
use distributed_in_memory_ke.Server.Mirror.{stream_rounds-IsMirror}
use distributed_in_memory_ke.Storage.AofLogger.{get_file_size}
use distributed_in_memory_ke.Server.FrameLoop.{stopped}
use distributed_in_memory_ke.Server.Client.{Left, handle_client}
use distributed_in_memory_ke.Server.Replica.{psync_command}
use distributed_in_memory_ke.Server.PsyncStream.{stream_round}
use distributed_in_memory_ke.Server.Handshake.{Answered, handle_client-psync}
use distributed_in_memory_ke.Server.CatchUp.{receive-stream_rounds}
use distributed_in_memory_ke.Server.Reconnect.{receive-unknown}
use distributed_in_memory_ke.Examples.{
  platform, three_keys, world, environment, client_environment, connection, replica, two_requests,
}

abbrev stream : Bytes
stream = serialize_items two_requests ++ codes "*2"

-- A file that does not grow.
stream_rounds-IsMirror_example :
    ((stream_rounds (λ i. stream) 0 3 (seek 1)).sent
        ++ drop (stream_rounds (λ i. stream) 0 3 (seek 1)).position stream
      ≡ drop 1 stream)
    × ((stream_rounds (λ i. stream) 0 3 (seek 1)).position ≤ length stream)
unfolding serialize to_string_u64
stream_rounds-IsMirror_example =
    stream_rounds-IsMirror (λ i. stream) (λ i. ([], sym (append-nil stream))) 1 3 (omega arith)
      (omega arith)

handle_client-psync_example :
    (left : Left) × (handle_client platform false client_environment connection 100 90
        (psync_command 45 ∷ [])
        (world three_keys)
      ≡ stopped left)
    × Answered 45 (world three_keys) left
unfolding no_negative_bulk psync_command
handle_client-psync_example =
    handle_client-psync platform false client_environment connection 100 90 (psync_command 45) [] 45
      (world three_keys) refl (omega arith) (omega arith) (omega arith, omega arith, refl)
      (append-nil (psync_command 45))

-- The replica's log is empty, and the primary's has two commands.
abbrev log_file : Bytes
log_file = serialize_items two_requests

receive-stream_rounds_example :
    receive platform 100 90 true environment (greeted log_file ∷ []) (new_connection replica)
    ≡ continues (record {
      aof = record { is_open = true; file = log_file };
      world = dispatch_all platform 100 true environment 0 two_requests replica.world;
      applied = 0 + size two_requests;
      client_buffer = [];
      in_stream = true;
    })
unfolding no_negative_bulk serialize to_string_u64 stream_rounds stream_round get_file_size
receive-stream_rounds_example =
    receive-stream_rounds platform 100 90 true environment (greeted log_file ∷ []) log_file
      two_requests replica 1 refl (omega arith) refl (omega arith, omega arith, refl)
      ((omega arith, (tt, (tt, (tt, tt)))), ((omega arith, (tt, (tt, tt))), tt)) (omega arith)
      (append-nil (greeted log_file))

-- The stream starts within a bulk string.
receive-unknown_example :
    receive platform 100 90 true environment (greeted (codes "bc") ∷ []) (new_connection replica)
    ≡ continues (record {
      aof = log_raw (codes "bc") replica.aof;
      world = replica.world;
      applied = 0;
      client_buffer = codes "bc";
      in_stream = true;
    })
unfolding no_negative_bulk
receive-unknown_example =
    receive-unknown 100 b'b' refl platform 90 true environment (greeted (codes "bc") ∷ [])
      (codes "c") replica (append-nil (greeted (codes "bc"))) (omega arith, omega arith, refl)
