-- ===== src/Server/Start.antt =====
-- `Server::start` (src/server/Server.cpp): the replay of the log, the socket and the loop that accepts
-- connections. What the system calls answer is an argument.
use distributed_in_memory_ke.Prelude.{
  ℕ, ◌≡◌, refl, Bool, Bool-cases, true, false, not, inl, inr, Option, none, some, List, [], ◌∷◌,
  ◌++◌, arith, if◌then◌else◌, Bytes, ℤ, is_negative,
}
use distributed_in_memory_ke.Storage.Entry.{Platform}
use distributed_in_memory_ke.Server.State.{World, client_connects}
use distributed_in_memory_ke.Server.Lifecycle.{Server, has_socket, stop_server}
use distributed_in_memory_ke.Server.Replay.{Environment, Replayed, finished, replay}
use distributed_in_memory_ke.Server.System.{System, reading}

-- What `::socket`, `::setsockopt`, `::bind` and `::listen` answer.
pub record Answers : Type 0 where
  pub socket : ℤ
  pub option : ℤ
  pub address : ℤ
  pub listener : ℤ

-- Where the set-up of the socket ends: at an early return, or in front of the loop.
pub data SetUp : Type 0 where
  no_socket : SetUp
  no_option : SetUp
  no_address : SetUp
  no_listener : SetUp
  listening : SetUp

unfoldable pub set_up : Answers → Server → Server × SetUp
set_up answers server =
    let opened = record server { server_fd = answers.socket } in
    if not (has_socket answers.socket)
    then (opened, no_socket)
    else if is_negative answers.option
    then (opened, no_option)
    else if is_negative answers.address
    then (opened, no_address)
    else if is_negative answers.listener
    then (opened, no_listener)
    else (record opened { running = true }, listening)

-- `while (!aof_content.empty())` on the text of the log; there is none where it cannot be opened.
abbrev pub load : Platform → ℕ → Bool → Environment → ℕ → ℕ → Option Bytes → World → Replayed
load platform reserve_limit is_replica env rounds depth none w = finished w 0 []
load platform reserve_limit is_replica env rounds depth (some content) w =
    replay platform reserve_limit is_replica env rounds depth 0 content w

-- The loop over what `::accept` answers: a failure is skipped, and a connection gets a thread.
unfoldable pub accept_all : List ℤ → System → System
accept_all [] s = s
accept_all (fd ∷ fds) s =
    let skipped = accept_all fds s in
    let accepted =
      accept_all fds
        (record { world = client_connects s.world; clients = s.clients ++ reading [] ∷ [] }) in
    if is_negative fd then skipped else accepted

-- How `start` ends: at an early return; in the loop, with whether there is a replica thread; or in the
-- replay, by an exception or past a bound of the model.
pub data Started : Type 0 where
  returned : Server → SetUp → World → Started
  serving : Server → Bool → System → Started
  failed : Started

module _ (platform : Platform) (reserve_limit : ℕ) (env : Environment) (rounds depth : ℕ) where
  unfoldable pub after_set_up : World → List ℤ → Server × SetUp → Started
  unfolding accept_all
  after_set_up w fds (server, listening) =
      serving server server.is_replica (accept_all fds (record { world = w; clients = [] }))
  after_set_up w fds (server, end') = returned server end' w

  unfoldable pub after_load : Answers → List ℤ → Server → Replayed → Started
  unfolding after_set_up set_up
  after_load answers fds server (finished w count rest) = after_set_up w fds (set_up answers server)
  after_load answers fds server _ = failed

  unfoldable pub start_server : Option Bytes → Answers → List ℤ → Server → World → Started
  unfolding after_load
  start_server content answers fds server w =
      after_load answers fds (record server { running = true })
        (load platform reserve_limit server.is_replica env rounds depth content w)

-- A stop behind a set-up of the socket, wherever that has ended, closes the descriptor that
-- `::socket` has answered, if it has answered one, and leaves the server without a descriptor.
pub stop_server-set_up :
    (answers : Answers) (server : Server)
    → ((stop_server (set_up answers server).0).1
        ≡ (if has_socket answers.socket then some answers.socket else none))
      × (has_socket (stop_server (set_up answers server).0).0.server_fd ≡ false)
unfolding stop_server set_up
stop_server-set_up answers server = elim (Bool-cases (has_socket answers.socket)) [
  | inl got ↦ ground arith
  | inr failed' ↦ rw failed' (rw failed' (refl, failed'))
]
