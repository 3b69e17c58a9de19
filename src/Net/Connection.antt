-- ===== src/Net/Connection.antt =====
-- `Connection` (include/net/Connection.h, src/net/Connection.cpp), which owns a file descriptor. What
-- the system calls answer is an argument.
use distributed_in_memory_ke.Prelude.{
  ℕ, zero, suc, ◌+◌, ◌-◌, ◌≤◌, ◌≡◌, Bool, true, false, Option, none, some, ltb, if◌then◌else◌, ℤ,
  pos, negsuc, Bytes, length,
}

pub record Connection : Type 0 where
  pub fd : ℤ

-- The constructor from a descriptor.
abbrev pub construct : ℤ → Connection
construct fd = record { fd = fd }

-- `fd_ >= 0`
abbrev pub holds_fd : ℤ → Bool
holds_fd (pos n) = true
holds_fd (negsuc n) = false

-- `fd_ = -1`
abbrev pub no_fd : Connection
no_fd = record { fd = negsuc 0 }

-- `close`, with the descriptor that is passed to `::close`.
unfoldable pub close : Connection → Connection × Option ℤ
close conn = if holds_fd conn.fd then (no_fd, some conn.fd) else (conn, none)

-- The destructor: what is passed to `::close`.
unfoldable pub destroy : Connection → Option ℤ
unfolding close
destroy conn = (close conn).1

-- The move constructor: the new connection, and the other one afterwards.
unfoldable pub move_construct : Connection → Connection × Connection
move_construct other = (record { fd = other.fd }, no_fd)

-- The move assignment between two objects: both afterwards, and what is closed. An assignment to
-- itself does nothing.
unfoldable pub move_assign : Connection → Connection → Connection × Connection × Option ℤ
unfolding close
move_assign conn other =
    let (conn', closed) = close conn in (record conn' { fd = other.fd }, no_fd, closed)

-- `::write`: what its n-th call answers, by the number of bytes that it is given. It writes no more
-- than these.
pub record Writer : Type 0 where
  pub write : ℕ → ℕ → ℤ
  pub write-le : (i count n : ℕ) → write i count ≡ pos n → n ≤ count

-- The result of `write_bytes` and `total_written`, or more rounds than the model has.
pub data Written : Type 0 where
  wrote : Bool → ℕ → Written
  too_many_rounds : Written

module _ (writer : Writer) (size : ℕ) where
  -- `while (total_written < data.size())`, from call number `i` on.
  unfoldable pub write_loop : ℕ → ℕ → ℕ → Written
  write_loop zero i total_written = too_many_rounds
  write_loop (suc rounds) i total_written =
      if ltb total_written size
      then elim (writer.write i (size - total_written)) [
        | negsuc n ↦ wrote false total_written
        | pos zero ↦ wrote false total_written
        | pos (suc n) ↦ write_loop rounds (suc i) (total_written + suc n)
      ]
      else wrote true total_written

-- Every round but the last writes a byte.
unfoldable pub write_bytes : Writer → Connection → Bytes → Written
unfolding write_loop
write_bytes writer conn data' =
    if holds_fd conn.fd
    then write_loop writer (length data') (suc (length data')) 0 0
    else wrote false 0

-- `read_bytes`, by what `::read` answers.
unfoldable pub read_bytes : (ℕ → ℤ) → Connection → ℕ → ℤ
read_bytes read conn max_bytes = if holds_fd conn.fd then read max_bytes else negsuc 0
