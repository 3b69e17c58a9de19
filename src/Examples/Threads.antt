-- ===== src/Examples/Threads.antt =====
-- Runs of the laws on threads and connections (src/server/Server.cpp).
use distributed_in_memory_ke.Prelude.{
  ℕ, zero, suc, ◌≡◌, ◌++◌, refl, true, false, inl, inr, some, List, [], ◌∷◌, append-nil, arith,
  Bytes, bytes_eq, codes, length, ℤ, pos, negsuc,
}
use mathlib.Core.List.{map}
use distributed_in_memory_ke.Std.Decimal.{to_string_u64}
use distributed_in_memory_ke.Protocol.Value.{
  RespValue, RespValues, nil, cons, serialize, serialize_items,
}
use distributed_in_memory_ke.Protocol.RoundTrip.{parse-serialize}
use distributed_in_memory_ke.Protocol.Progress.{no_negative_bulk}
use distributed_in_memory_ke.Storage.Dict.{find}
use distributed_in_memory_ke.Storage.Evict.{new_engine}
use distributed_in_memory_ke.Storage.Meaning.{Shows, nothing_stored, new_engine-Shows}
use distributed_in_memory_ke.Net.Connection.{wrote, construct, write_bytes, write_loop}
use distributed_in_memory_ke.Server.State.{World, client_connects}
use distributed_in_memory_ke.Server.Lifecycle.{Server, new_server, has_socket, stop_server}
use distributed_in_memory_ke.Server.Request.{to_upper}
use distributed_in_memory_ke.Server.Commands.{Command, set_to, incr_of, del_of, request_of}
use distributed_in_memory_ke.Server.Serving.{meaning_all}
use distributed_in_memory_ke.Server.Replay.{replay, finished, dispatch_all}
use distributed_in_memory_ke.Server.Replica.{Replica, continues}
use distributed_in_memory_ke.Server.Greeting.{greeted}
use distributed_in_memory_ke.Server.Worker.{Attempt, work}
use distributed_in_memory_ke.Server.WorkerStream.{HasApplied, all_values, work-IsRound}
use distributed_in_memory_ke.Server.System.{System, Reach, accept, read, log_command, reading}
use distributed_in_memory_ke.Server.SystemSound.{alive, IsSound}
use distributed_in_memory_ke.Server.SystemHistory.{begins, stores, goes, IsHistory}
use distributed_in_memory_ke.Server.SerialLog.{Run-IsHistory}
use distributed_in_memory_ke.Server.SystemOrder.{parse-empty, crossed, Reach-reordered}
use distributed_in_memory_ke.Server.Start.{
  Answers, set_up, serving, start_server, stop_server-set_up,
}
use distributed_in_memory_ke.Server.StartSound.{start_server-IsSound}
use distributed_in_memory_ke.Examples.{
  platform, three_keys, no_sample, world, environment, all_at_once, replica, set_request,
  incr_request, two_requests,
}

abbrev begin : World
begin = world (new_engine 2)

Reach-reordered_example :
    (t : System) × Reach platform 100 90 begin t
    × Shows platform 50 t.world.storage (
        meaning_all
          (set_to (codes "a") (codes "1") ∷ set_to (codes "a") (codes "2") ∷ [])
          nothing_stored)
    × (restored : World) × (replay platform 100 false environment 3 90 0 t.world.aof.file begin
        ≡ finished restored 2 [])
    × Shows platform 50 restored.storage (
        meaning_all
          (set_to (codes "a") (codes "2") ∷ set_to (codes "a") (codes "1") ∷ [])
          nothing_stored)
unfolding serialize to_string_u64
Reach-reordered_example =
    Reach-reordered platform 100 false environment (λ n. omega arith) 50 (λ n. omega arith)
      no_sample (codes "a") (codes "1") (codes "2") 3 90 begin begin nothing_stored
      ((omega arith, (tt, (tt, (tt, tt)))), ((omega arith, (tt, (tt, (tt, tt)))), tt))
      (omega arith, refl) (omega arith, refl) (new_engine-Shows platform 2 0)
      (new_engine-Shows platform 2 0) refl (omega arith) (omega arith) (omega arith)

abbrev server : Server
server = new_server 6379 [] 0

abbrev answers : Answers
answers = record { socket = pos 3; option = pos 0; address = pos 0; listener = pos 0 }

-- The second `::accept` fails.
abbrev descriptors : List ℤ
descriptors = pos 4 ∷ negsuc 0 ∷ pos 5 ∷ []

abbrev restarted : World
restarted = record begin { aof = record { is_open = true; file = serialize_items two_requests } }

start_server-IsSound_example :
    (s : System) × (start_server platform 100 environment 90 90
        (some restarted.aof.file)
        answers
        descriptors
        server
        restarted
      ≡ serving (set_up answers (record server { running = true })).0 false s)
    × (s.world.storage
        ≡ (dispatch_all platform 100 false environment 0 two_requests restarted).storage)
    × (s.world.aof ≡ restarted.aof)
    × (alive s.clients ≡ 2)
    × IsSound 100 s
unfolding set_up serialize to_string_u64 find
start_server-IsSound_example =
    start_server-IsSound platform 100 (omega arith) environment 90 90 answers descriptors server
      restarted two_requests
      ((omega arith, (tt, (tt, (tt, tt)))), ((omega arith, (tt, (tt, tt))), tt)) refl (omega arith)
      (omega arith) (omega arith) (tt, (tt, tt)) refl refl

-- An address that is in use.
stop_server-set_up_example :
    ((stop_server (set_up (record answers { address = negsuc 0 }) server).0).1 ≡ some (pos 3))
    × (has_socket
          (stop_server (set_up (record answers { address = negsuc 0 }) server).0).0.server_fd
        ≡ false)
stop_server-set_up_example = stop_server-set_up (record answers { address = negsuc 0 }) server

write_loop_all : (n : ℕ) → write_loop all_at_once n (suc n) 0 0 ≡ wrote true n
unfolding write_loop
write_loop_all zero = refl
write_loop_all (suc n) = ground arith

writes_all :
    (text : Bytes)
    → (total : ℕ) × (write_bytes all_at_once (construct (pos 7)) text ≡ wrote true total)
unfolding write_bytes
writes_all text = (length text, write_loop_all (length text))

-- The primary is not up yet; then a connection delivers `SET a 1`, and a second one `INCR a`.
abbrev too_early : Attempt
too_early = record {
  socket = pos 7;
  address = pos 1;
  connected = negsuc 0;
  writer = all_at_once;
  chunks = [];
}

abbrev delivers : RespValues → Attempt
delivers vs = record {
  socket = pos 7;
  address = pos 1;
  connected = pos 0;
  writer = all_at_once;
  chunks = greeted (serialize_items vs) ∷ [];
}

abbrev rounds : List (Attempt × RespValues)
rounds =
    (too_early, nil)
    ∷ (delivers (cons set_request nil), cons set_request nil)
    ∷ (delivers (cons incr_request nil), cons incr_request nil)
    ∷ []

work-IsRound_example :
    (r' : Replica) × (work platform 100 90 true environment (map (λ round. round.0) rounds) replica
      ≡ continues r')
    × HasApplied platform 100 90 true environment (all_values rounds) replica r'
unfolding serialize to_string_u64 no_negative_bulk
work-IsRound_example =
    work-IsRound platform 100 90 true environment rounds replica (omega arith) refl (
      inl (inr (inr refl), refl),
      (
        inr (
          (refl, refl, refl, writes_all),
          append-nil (greeted (serialize_items (cons set_request nil))),
          (omega arith, omega arith, refl),
          ((omega arith, (tt, (tt, (tt, tt)))), tt),
        ),
        (
          inr (
            (refl, refl, refl, writes_all),
            append-nil (greeted (serialize_items (cons incr_request nil))),
            (omega arith, omega arith, refl),
            ((omega arith, (tt, (tt, tt))), tt),
          ),
          tt,
        ),
      ),
    )

abbrev set_a : Command
set_a = set_to (codes "a") (codes "1")

abbrev incr_a : Command
incr_a = incr_of (codes "a")

-- `SET a 1` and `INCR a` of two clients, logged in the other order.
Run-IsHistory_example :
    IsHistory platform 100 90 begin nothing_stored
      (set_a ∷ incr_a ∷ [])
      50
      (crossed platform 100 90 50 50 no_sample begin set_request incr_request)
unfolding find to_string_u64 serialize to_upper bytes_eq
Run-IsHistory_example =
    let empty = parse-empty 100 90 (omega arith) in
    Run-IsHistory platform 100 90 begin nothing_stored (set_a ∷ incr_a ∷ []) 50
      (crossed platform 100 90 50 50 no_sample begin set_request incr_request) (omega arith, refl)
      (tt, (tt, tt)) (new_engine-Shows platform 2 0) refl
      (goes
        (goes
          (stores
            (stores
              (goes
                (goes (goes (goes begins accept tt) accept tt)
                  (read 0 [] (serialize set_request ++ []) refl empty) tt)
                (read 1 [] (serialize incr_request ++ []) refl empty) tt)
              0 _ set_a _ 50 50 no_sample refl
              (parse-serialize 100 set_request [] 90 (omega arith, (tt, (tt, (tt, tt))))
                (omega arith) (omega arith))
              refl (omega arith))
            1 _ incr_a _ 50 50 no_sample refl
            (parse-serialize 100 incr_request [] 90 (omega arith, (tt, (tt, tt))) (omega arith)
              (omega arith))
            refl (omega arith))
          (log_command 1 _ _ _ refl) tt)
        (log_command 0 _ _ _ refl) tt)

abbrev del_request : RespValue
del_request = request_of (del_of (codes "a") (codes "cd" ∷ codes "a" ∷ []))

-- The client has sent `DEL a cd a`.
abbrev asked : System
asked = record {
  world = client_connects (world three_keys);
  clients = reading (serialize del_request ++ []) ∷ [];
}
