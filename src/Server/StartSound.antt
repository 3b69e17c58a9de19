-- ===== src/Server/StartSound.antt =====
-- What a start of the server (src/server/Server.cpp) leads to.
use distributed_in_memory_ke.Prelude.{
  ℕ, suc, ◌+◌, ◌≤◌, ◌<◌, ◌≡◌, ◌∙◌, ap, sym, refl, inl, inr, Bool, Bool-cases, true, some, List, [],
  ◌∷◌, ◌++◌, append-nil, arith, Bytes, two63, length, ℤ, is_negative, if◌then◌else◌,
}
use distributed_in_memory_ke.Protocol.Value.{RespValues, nil, cons, size, serialize_items}
use distributed_in_memory_ke.Protocol.RoundTrip.{IsFrames, size-le}
use distributed_in_memory_ke.Storage.Entry.{Platform}
use distributed_in_memory_ke.Storage.UniqueOperations.{HasUniqueKeys}
use distributed_in_memory_ke.Server.State.{World}
use distributed_in_memory_ke.Server.Lifecycle.{Server}
use distributed_in_memory_ke.Server.Dispatch.{dispatch}
use distributed_in_memory_ke.Server.LogEntries.{dispatch-connected_clients, dispatch-silent}
use distributed_in_memory_ke.Server.UniqueKeys.{dispatch-HasUniqueKeys}
use distributed_in_memory_ke.Server.Replay.{
  Environment, finished, replay, replay_call, dispatch_all, replay-serialize,
}
use distributed_in_memory_ke.Server.System.{System, Reach, start, next, accept, reading}
use distributed_in_memory_ke.Server.SystemSound.{alive, alive-append, IsSound}
use distributed_in_memory_ke.Server.SystemInvariant.{Reach-IsSound}
use distributed_in_memory_ke.Server.Start.{
  Answers, listening, set_up, accept_all, serving, start_server, after_load, after_set_up,
}

-- The connections that `::accept` hands out.
abbrev pub accepted : List ℤ → ℕ
accepted [] = 0
accepted (fd ∷ fds) = if is_negative fd then accepted fds else suc (accepted fds)

module _ (platform : Platform) (reserve_limit : ℕ) (is_replica : Bool) (env : Environment) where
  -- A replay does not write to the log, counts no client, and leaves no key twice.
  dispatch_all-HasUniqueKeys :
      (vs : RespValues) (n : ℕ) (w : World)
      → HasUniqueKeys w.storage
      → HasUniqueKeys (dispatch_all platform reserve_limit is_replica env n vs w).storage
        × ((dispatch_all platform reserve_limit is_replica env n vs w).aof ≡ w.aof)
        × ((dispatch_all platform reserve_limit is_replica env n vs w).connected_clients
            ≡ w.connected_clients)
  unfolding dispatch_all
  dispatch_all-HasUniqueKeys nil n w u = (u, refl, refl)
  dispatch_all-HasUniqueKeys (cons request vs) n w u =
      let call = replay_call platform reserve_limit is_replica env n in
      let (u', same, counted) =
        dispatch_all-HasUniqueKeys vs (suc n) (dispatch platform call request w).0
          (dispatch-HasUniqueKeys platform call request w u) in
      (
        u',
        same ∙ dispatch-silent platform call request w refl,
        counted ∙ dispatch-connected_clients platform call request w,
      )

module _ (platform : Platform) (reserve_limit depth : ℕ) where
  accept_all-Reach :
      (fds : List ℤ) (w : World) (s : System)
      → Reach platform reserve_limit depth w s
      → Reach platform reserve_limit depth w (accept_all fds s)
        × (alive (accept_all fds s).clients ≡ alive s.clients + accepted fds)
        × ((accept_all fds s).world.storage ≡ s.world.storage)
        × ((accept_all fds s).world.aof ≡ s.world.aof)
  unfolding accept_all
  accept_all-Reach [] w s r = (r, omega arith, refl, refl)
  accept_all-Reach (fd ∷ fds) w s r = elim (Bool-cases (is_negative fd)) [
    | inl skipped ↦ rw skipped (accept_all-Reach fds w s r)
    | inr got ↦
        let (r', count, stored, logged) = accept_all-Reach fds w _ (next r accept) in
        rw got (r', omega (arith, count, alive-append s.clients (reading [] ∷ [])), stored, logged)
  ]

module _ (platform : Platform) (reserve_limit : ℕ) (roomy : 3 ≤ reserve_limit)
    (env : Environment) where
  loaded :
      (is_replica : Bool) (vs : RespValues) (rounds depth : ℕ) (content : Bytes) (w : World)
      → IsFrames reserve_limit vs
      → content ≡ serialize_items vs
      → length content < two63
      → length content ≤ depth
      → length content < rounds
      → replay platform reserve_limit is_replica env rounds depth 0 content w
        ≡ finished (dispatch_all platform reserve_limit is_replica env 0 vs w) (size vs) []
  loaded is_replica vs rounds depth content w oks same small deep long =
      let file : serialize_items vs ++ [] ≡ content = append-nil (serialize_items vs) ∙ sym same in
      let bytes = ap length file in
      let bytes' = ap length same in
      rw (← file) (
        replay-serialize platform reserve_limit is_replica env vs rounds depth 0 [] w oks (inl refl)
          (omega arith) (omega arith) (omega (arith, size-le vs))
        ∙ ap (λ n. finished (dispatch_all platform reserve_limit is_replica env 0 vs w) n [])
            (omega arith))

  set_up-is_replica :
      (answers : Answers) (server : Server)
      → (set_up answers server).0.is_replica ≡ server.is_replica
  unfolding set_up
  set_up-is_replica answers server = ground arith

  -- A start succeeds on a log that is a sequence of printed frames, where the socket can be set up:
  -- `start` comes to the loop that accepts connections with the storage that dispatching these
  -- frames one after the other produces and with the log as it was, with one running thread for
  -- each connection that `::accept` hands out, and in a state in which no key stands twice, the log
  -- is a sequence of printed frames and the clients are counted. The world starts without clients
  -- and with no key twice; the log is shorter than 2 ^ 63 bytes and than the number of rounds, and
  -- no longer than the depth; the parser can reserve three elements.
  pub start_server-IsSound :
      (rounds depth : ℕ) (answers : Answers) (fds : List ℤ) (server : Server) (w : World)
      (vs : RespValues)
      → IsFrames reserve_limit vs
      → w.aof.file ≡ serialize_items vs
      → length w.aof.file < two63
      → length w.aof.file ≤ depth
      → length w.aof.file < rounds
      → HasUniqueKeys w.storage
      → w.connected_clients ≡ 0
      → (set_up answers (record server { running = true })).1 ≡ listening
      → (s : System) × (start_server platform reserve_limit env rounds depth
            (some w.aof.file)
            answers
            fds
            server
            w
          ≡ serving (set_up answers (record server { running = true })).0 server.is_replica s)
        × (s.world.storage
            ≡ (dispatch_all platform reserve_limit server.is_replica env 0 vs w).storage)
        × (s.world.aof ≡ w.aof)
        × (alive s.clients ≡ accepted fds)
        × IsSound reserve_limit s
  unfolding start_server after_load set_up
  start_server-IsSound rounds depth answers fds server w vs oks same small deep long keys none'
        ready =
      let restored = dispatch_all platform reserve_limit server.is_replica env 0 vs w in
      let (unique, silent, counted) =
        dispatch_all-HasUniqueKeys platform reserve_limit server.is_replica env vs 0 w keys in
      let first : System = record { world = restored; clients = [] } in
      let (reached, count, stored, logged) =
        accept_all-Reach platform reserve_limit depth fds restored first start in
      (
        accept_all fds first,
        rw (loaded server.is_replica vs rounds depth w.aof.file w oks same small deep long) (
            ap
              (λ e.
                after_set_up platform reserve_limit env rounds depth restored fds
                  ((set_up answers (record server { running = true })).0, e))
              ready
            ∙ ap
                (λ b.
                  serving (set_up answers (record server { running = true })).0 b
                    (accept_all fds first))
                (set_up-is_replica answers (record server { running = true }))),
        stored,
        logged ∙ silent,
        omega (arith, count),
        Reach-IsSound reserve_limit roomy platform depth restored (accept_all fds first) unique
            (rw silent (vs, oks, same)) (counted ∙ none') reached,
      )
