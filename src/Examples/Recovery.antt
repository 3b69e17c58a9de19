-- ===== src/Examples/Recovery.antt =====
-- Runs of the laws on the contents of the store and on a restart (src/server/Server.cpp).
use distributed_in_memory_ke.Prelude.{
  ℕ, length, ◌*◌, ◌≤◌, ◌≡◌, refl, true, false, List, [], ◌∷◌, arith, Bytes, codes, ◌∙◌, ap, sym,
  append-nil, bytes_eq,
}
use distributed_in_memory_ke.Std.Decimal.{to_string_u64}
use distributed_in_memory_ke.Protocol.Value.{serialize}
use distributed_in_memory_ke.Storage.Evict.{new_engine}
use distributed_in_memory_ke.Storage.Meaning.{Shows, Unbounded, nothing_stored, new_engine-Shows}
use distributed_in_memory_ke.Server.State.{World}
use distributed_in_memory_ke.Server.Dispatch.{dispatch}
use distributed_in_memory_ke.Server.Replay.{replay, finished}
use distributed_in_memory_ke.Server.Commands.{
  Command, set_to, get_of, del_of, incr_of, request_of, meaning, dispatch-Shows,
}
use distributed_in_memory_ke.Server.Serving.{meaning_all, serve}
use distributed_in_memory_ke.Server.Recovery.{replay-serve}
use distributed_in_memory_ke.Server.Dispatch.{run_command, checked_command}
use distributed_in_memory_ke.Server.Request.{to_upper, is_mutating_command}
use distributed_in_memory_ke.Server.Keys.{handle_set}
use distributed_in_memory_ke.Server.State.{log_unless_bypassed}
use distributed_in_memory_ke.Storage.AofLogger.{log, get_file_size}
use distributed_in_memory_ke.Storage.Operations.{set}
use distributed_in_memory_ke.Protocol.Progress.{no_negative_bulk}
use distributed_in_memory_ke.Server.PsyncStream.{seek, buffer_size, stream_round, stream_rounds}
use distributed_in_memory_ke.Server.Mirror.{twice}
use distributed_in_memory_ke.Server.Chunks.{IsOrderly}
use distributed_in_memory_ke.Server.Replica.{Replica, new_connection, continues, receive}
use distributed_in_memory_ke.Server.Greeting.{greeted}
use distributed_in_memory_ke.Server.Replication.{receive-serve}
use distributed_in_memory_ke.Examples.{
  replica, platform, world, call, environment, client_environment, connection,
}

abbrev start : World
start = world (new_engine 2)

abbrev ten : Command
ten = set_to (codes "a") (codes "10")

dispatch-Shows_example :
    Unbounded
      (dispatch platform (call false) (request_of ten) start).0.storage.shards
      (dispatch platform (call false) (request_of ten) start).0.storage.max_memory_bytes
    × Shows platform 50
        (dispatch platform (call false) (request_of ten) start).0.storage
        (meaning ten nothing_stored)
dispatch-Shows_example =
    dispatch-Shows platform (call false) refl ten 0 start nothing_stored (omega arith, refl)
      (new_engine-Shows platform 2 0) (omega arith)

-- GET and the second DEL are not logged.
abbrev commands : List Command
commands =
    ten
    ∷ incr_of (codes "a")
    ∷ get_of (codes "a")
    ∷ set_to (codes "b") (codes "x")
    ∷ del_of (codes "b") []
    ∷ del_of (codes "b") []
    ∷ []

replay-serve_example :
    Shows platform 50
      (serve platform client_environment connection 0 commands start).storage
      (meaning_all commands nothing_stored)
    × (restored : World) × (count : ℕ) × (replay platform 100 false environment 500 500 0
          (serve platform client_environment connection 0 commands start).aof.file
          start
        ≡ finished restored count [])
    × Shows platform 50 restored.storage (meaning_all commands nothing_stored)
unfolding serialize to_string_u64
replay-serve_example =
    replay-serve platform 100 connection false client_environment environment (λ n. omega arith)
      (λ n. omega arith) 50 (λ n. omega arith) (λ n. omega arith) commands 500 500 start start
      nothing_stored
      (
        (omega arith, (tt, (tt, (tt, tt)))),
        (
          (omega arith, (tt, (tt, tt))),
          (
            (omega arith, (tt, (tt, tt))),
            (
              (omega arith, (tt, (tt, (tt, tt)))),
              ((omega arith, (tt, (tt, tt))), ((omega arith, (tt, (tt, tt))), tt)),
            ),
          ),
        ),
      )
      (omega arith, refl) (omega arith, refl) (new_engine-Shows platform 2 0)
      (new_engine-Shows platform 2 0) refl (omega arith) (omega arith) (omega arith)

-- The primary's log after `SET a 10`.
abbrev logged : Bytes
logged = serialize (request_of ten)

primary_log : (serve platform client_environment connection 0 (ten ∷ []) start).aof.file ≡ logged
unfolding dispatch checked_command run_command to_upper is_mutating_command bytes_eq handle_set set
    log_unless_bypassed log serialize to_string_u64
primary_log = refl

abbrev follower : Replica
follower = record replica { world = start }

logged-IsOrderly : IsOrderly 90 logged
unfolding no_negative_bulk serialize to_string_u64
logged-IsOrderly = (omega arith, omega arith, refl)

logged_fits : length logged ≤ 1 * buffer_size
unfolding serialize to_string_u64
logged_fits = omega arith

logged_sent :
    (stream_rounds (λ i. logged) 0 (twice 1) (seek (get_file_size follower.aof))).sent ≡ logged
unfolding stream_rounds stream_round get_file_size serialize to_string_u64
logged_sent = refl

receive-serve_example :
    (r' : Replica) × (receive platform 100 90 true environment
        (greeted logged ∷ [])
        (new_connection follower)
      ≡ continues r')
    × (r'.aof ≡ (serve platform client_environment connection 0 (ten ∷ []) start).aof)
    × Shows platform 50 r'.world.storage (meaning_all (ten ∷ []) nothing_stored)
    × Shows platform 50
        (serve platform client_environment connection 0 (ten ∷ []) start).storage
        (meaning_all (ten ∷ []) nothing_stored)
receive-serve_example =
    receive-serve platform 100 90 connection client_environment environment (λ n. omega arith)
      (λ n. omega arith) 50 (λ n. omega arith) (λ n. omega arith) (ten ∷ []) start follower
      nothing_stored (greeted logged ∷ []) 1 ((omega arith, (tt, (tt, (tt, tt)))), tt)
      (omega arith, refl) (omega arith, refl) (new_engine-Shows platform 2 0)
      (new_engine-Shows platform 2 0) refl refl (rw primary_log logged-IsOrderly)
      (rw primary_log logged_fits)
      (append-nil (greeted logged) ∙ rw primary_log (ap greeted (sym logged_sent)))
