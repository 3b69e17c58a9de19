-- ===== src/Server/Worker.antt =====
-- The outer loop of `Server::run_replica_worker` (src/server/Server.cpp): attempts to connect to the
-- primary, one after the other. What the system calls answer is an argument.
use distributed_in_memory_ke.Prelude.{
  ℕ, ◌≡◌, refl, Bool, Bool-cases, true, false, not, inl, inr, Option, none, some, List, [], ◌∷◌,
  arith, if◌then◌else◌, ltb, Bytes, ℤ, pos, negsuc,
}
use distributed_in_memory_ke.Storage.Entry.{Platform}
use distributed_in_memory_ke.Storage.AofLogger.{get_file_size}
use distributed_in_memory_ke.Net.Connection.{
  Writer, Written, wrote, too_many_rounds, construct, destroy, holds_fd, write_bytes,
}
use distributed_in_memory_ke.Server.Replay.{Environment}
use distributed_in_memory_ke.Server.Replica.{
  Replica, Received, continues, refused, lost, psync_command, new_connection, receive,
}

-- What `::socket`, `inet_pton` and `::connect` answer, the calls of `::write` for the PSYNC command, and
-- what is read until the connection ends.
pub record Attempt : Type 0 where
  pub socket : ℤ
  pub address : ℤ
  pub connected : ℤ
  pub writer : Writer
  pub chunks : List Bytes

-- `> 0`
abbrev pub is_positive : ℤ → Bool
is_positive (pos n) = ltb 0 n
is_positive (negsuc n) = false

module _ (platform : Platform) (reserve_limit depth : ℕ) (is_replica : Bool)
    (env : Environment) where
  -- The connection reads on once the PSYNC command is written. `client_buffer` and `in_stream` are
  -- local to it.
  unfoldable pub greet : Written → List Bytes → Replica → Received
  greet (wrote true total) chunks r =
      receive platform reserve_limit depth is_replica env chunks (new_connection r)
  greet (wrote false total) chunks r = continues r
  greet too_many_rounds chunks r = lost

  -- One round of the loop, with the descriptor that it passes to `::close` or that the destructor of
  -- its `Connection` does.
  unfoldable pub attempt : Attempt → Replica → Received × Option ℤ
  unfolding greet
  attempt a r =
      if not (holds_fd a.socket)
      then (continues r, none)
      else if not (is_positive a.address)
      then (continues r, some a.socket)
      else if not (holds_fd a.connected)
      then (continues r, some a.socket)
      else (let conn = construct a.socket in
          let written = write_bytes a.writer conn (psync_command (get_file_size r.aof)) in
          (greet written a.chunks r, destroy conn))

  -- The loop: a connection that is lost or refused is followed by the next attempt.
  unfoldable pub work : List Attempt → Replica → Received
  unfolding attempt
  work [] r = continues r
  work (a ∷ attempts) r = elim (attempt a r).0 [
    | continues r' ↦ work attempts r'
    | refused r' ↦ work attempts r'
    | lost ↦ lost
  ]

  -- An attempt of the replica worker, whatever it meets, closes the descriptor that it has got from
  -- `::socket`, and no other.
  pub attempt-closes :
      (a : Attempt) (r : Replica)
      → (attempt a r).1 ≡ (if holds_fd a.socket then some a.socket else none)
  unfolding attempt destroy
  attempt-closes a r = elim (Bool-cases (holds_fd a.socket)) [
    | inl held ↦ ground arith
    | inr failed ↦ rw failed refl
  ]
