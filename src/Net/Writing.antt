-- ===== src/Net/Writing.antt =====
-- What `Connection::write_bytes` (src/net/Connection.cpp) has written when it returns.
use distributed_in_memory_ke.Prelude.{
  ℕ, zero, suc, ◌+◌, ◌-◌, ◌≤◌, ◌<◌, ◌≡◌, ◌⊎◌, refl, inl, inr, true, false, arith, ltb, Bool-cases,
  if◌then◌else◌, ℤ, pos, negsuc, Bytes, length, ◌==◌, Option, none, some,
}
use distributed_in_memory_ke.Net.Connection.{
  Connection, holds_fd, Writer, Written, wrote, too_many_rounds, write_loop, write_bytes,
  move_assign,
}

-- It returns; `true` after all the bytes, `false` after fewer.
abbrev pub IsWritten : ℕ → Written → Type 0
IsWritten size (wrote true total) = total ≡ size
IsWritten size (wrote false total) = total < size
IsWritten size too_many_rounds = ⊥

answers : (z : ℤ) → (z ≡ pos 0) ⊎ ((n : ℕ) × (z ≡ pos (suc n))) ⊎ ((n : ℕ) × (z ≡ negsuc n))
answers (pos zero) = inl refl
answers (pos (suc n)) = inr (inl (n, refl))
answers (negsuc n) = inr (inr (n, refl))

module _ (writer : Writer) (size : ℕ) where
  write_loop-IsWritten :
      (rounds i total : ℕ)
      → total ≤ size
      → size - total < rounds
      → IsWritten size (write_loop writer size rounds i total)
  unfolding write_loop
  write_loop-IsWritten zero i total inside enough = absurd (omega arith)
  write_loop-IsWritten (suc rounds) i total inside enough = elim (Bool-cases (ltb total size)) [
    | inr done ↦ rw done (ground arith)
    | inl more ↦ elim (answers (writer.write i (size - total))) [
      | inl nothing ↦ rw (more, nothing) (ground arith)
      | inr (inr (n, failed)) ↦ rw (more, failed) (ground arith)
      | inr (inl (n, some')) ↦
          let fits = writer.write-le i (size - total) (suc n) some' in
          rw (more, some')
            (write_loop-IsWritten rounds (suc i) (total + suc n) (omega arith) (omega arith))
    ]
  ]

-- On a connection with a descriptor `write_bytes` returns after at most one call more than there
-- are bytes, whatever the system answers: `true` when it has written all the bytes, `false` when it
-- has written fewer.
pub write_bytes-IsWritten :
    (writer : Writer) (conn : Connection) (data' : Bytes)
    → holds_fd conn.fd ≡ true
    → IsWritten (length data') (write_bytes writer conn data')
unfolding write_bytes
write_bytes-IsWritten writer conn data' open' = rw open' (
    write_loop-IsWritten writer (length data') (suc (length data')) 0 0 (omega arith) (omega arith))

-- How often a descriptor is open in an object, and how often it has been closed.
abbrev pub owned : ℕ → ℤ → ℕ
owned fd (pos n) = if n == fd then 1 else 0
owned fd (negsuc n) = 0

abbrev pub closed : ℕ → Option ℤ → ℕ
closed fd none = 0
closed fd (some z) = owned fd z

-- A move assignment neither loses a descriptor nor doubles it: what the two objects hold afterwards
-- and what is closed is what they held.
pub move_assign-owned :
    (conn other : Connection) (fd : ℕ)
    → let (conn', other', gone) = move_assign conn other in
      owned fd conn'.fd + owned fd other'.fd + closed fd gone ≡ owned fd conn.fd + owned fd other.fd
unfolding move_assign
move_assign-owned conn other fd = ground arith
