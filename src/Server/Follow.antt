-- ===== src/Server/Follow.antt =====
-- A PSYNC stream (src/server/Server.cpp) from any offset, also from one behind the end of the log.
use distributed_in_memory_ke.Prelude.{
  ℕ, ◌≤◌, ◌≡◌, ◌∙◌, ◌⊎◌, refl, inl, inr, Bool-cases, leb, [], ◌++◌, arith, Bytes, length, drop,
  length-append,
}
use distributed_in_memory_ke.Server.PsyncStream.{Streaming, seek, stream_round}
use distributed_in_memory_ke.Server.Mirror.{
  IsMirror, stream_round-IsMirror, stream_round_bounds, grown, drop_none,
}

-- The stream has sent the file from the offset up to its position; behind the end of the file it has
-- sent nothing.
abbrev pub IsFollowing : ℕ → Bytes → Streaming → Type 0
IsFollowing offset file s =
    IsMirror offset file s
    × (((offset ≤ length file) × (s.position ≤ length file))
        ⊎ ((s.sent ≡ []) × (s.position ≡ offset)))

pub seek-IsFollowing :
    (offset : ℕ) (file : Bytes) → IsFollowing (seek offset).position file (seek offset)
seek-IsFollowing offset file = (refl, inr (refl, refl))

-- Behind the end a round reads nothing.
behind_end :
    (file : Bytes) (s : Streaming)
    → length file ≤ s.position
    → ((stream_round file s).sent ≡ s.sent) × ((stream_round file s).position ≡ s.position)
unfolding stream_round
behind_end file s far =
    let none' : drop s.position file ≡ [] = drop_none s.position file far in
    elim (Bool-cases s.failed) [
      | inl failed ↦ rw failed (refl, refl)
      | inr fine ↦ rw (fine, none') (refl, refl)
    ]

pub stream_round-IsFollowing :
    (offset : ℕ) (file : Bytes) (s : Streaming)
    → IsFollowing offset file s
    → IsFollowing offset file (stream_round file s)
stream_round-IsFollowing offset file s (mirror, inl (started, inside)) =
    let (le, inside') = stream_round_bounds file s inside in
    (stream_round-IsMirror offset file s mirror, inl (started, inside'))
stream_round-IsFollowing offset file s (mirror, inr (nothing, here)) =
    let kept = stream_round-IsMirror offset file s mirror in
    elim (Bool-cases (leb s.position (length file))) [
      | inl near ↦
          let inside : s.position ≤ length file = ground (arith, near) in
          let (le, inside') = stream_round_bounds file s inside in
          (kept, inl (omega arith, inside'))
      | inr far ↦
          let (same, same') = behind_end file s (ground (arith, far)) in
          (kept, inr (same ∙ nothing, same' ∙ here))
    ]

-- More is logged.
pub append-IsFollowing :
    (offset : ℕ) (file more : Bytes) (s : Streaming)
    → IsFollowing offset file s
    → IsFollowing offset (file ++ more) s
append-IsFollowing offset file more s (mirror, inl (started, inside)) =
    let longer = length-append file more in
    (grown offset file more s started inside mirror, inl (omega arith, omega arith))
append-IsFollowing offset file more s (mirror, inr (nothing, here)) =
    (rw (nothing, here) refl, inr (nothing, here))
