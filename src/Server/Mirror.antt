-- ===== src/Server/Mirror.antt =====
-- What a PSYNC stream (src/server/Server.cpp) has sent: a part of the primary's log without gaps, and in
-- the end all of it.
use distributed_in_memory_ke.Prelude.{
  ℕ, zero, suc, ◌+◌, ◌-◌, ◌*◌, ◌≤◌, ◌<◌, two63, ◌≡◌, ◌∙◌, ◌⊎◌, ap, sym, refl, inl, inr, true, false,
  Bool-cases, ◌==◌, [], ◌∷◌, ◌++◌, append-nil, append_assoc, arith, Bytes, length, take, drop,
  length-append, length-drop, drop-drop, drop-append_left,
}
use distributed_in_memory_ke.Server.PsyncStream.{
  Streaming, seek, seek_small, buffer_size, read_file, stream_round, stream_rounds,
}

take-le : (n : ℕ) (s : Bytes) → length (take n s) ≤ length s
take-le zero s = omega arith
take-le (suc n) [] = omega arith
take-le (suc n) (c ∷ s) = omega (arith, take-le n s)

take-drop : (n : ℕ) (s : Bytes) → take n s ++ drop (length (take n s)) s ≡ s
take-drop zero s = refl
take-drop (suc n) [] = refl
take-drop (suc n) (c ∷ s) = ap (λ t. c ∷ t) (take-drop n s)

-- What has been sent and what stands behind the position are the file from the offset on.
abbrev pub IsMirror : ℕ → Bytes → Streaming → Type 0
IsMirror offset file s = s.sent ++ drop s.position file ≡ drop offset file

pub stream_round-IsMirror :
    (offset : ℕ) (file : Bytes) (s : Streaming)
    → IsMirror offset file s
    → IsMirror offset file (stream_round file s)
unfolding stream_round
stream_round-IsMirror offset file s h = elim (Bool-cases s.failed) [
  | inl failed ↦ rw failed h
  | inr fine ↦
      let text = read_file file s.position in
      elim (Bool-cases (length text == 0)) [
        | inl empty ↦ rw (fine, empty) h
        | inr some' ↦
            rw (fine, some')
              (append_assoc s.sent text (drop (s.position + length text) file)
                ∙ ap (λ t. s.sent ++ (text ++ t)) (sym (drop-drop s.position (length text) file))
                ∙ ap (λ t. s.sent ++ t) (take-drop buffer_size (drop s.position file))
                ∙ h)
      ]
]

take-length-cases : (n : ℕ) (s : Bytes) → (length (take n s) ≡ n) ⊎ (length (take n s) ≡ length s)
take-length-cases zero s = inl refl
take-length-cases (suc n) [] = inr refl
take-length-cases (suc n) (c ∷ s) = elim (take-length-cases n s) [
  | inl all ↦ inl (ap suc all)
  | inr short ↦ inr (ap suc short)
]

within :
    (p n left size : ℕ)
    → (n ≡ buffer_size) ⊎ (n ≡ left)
    → left ≡ size - p
    → p ≤ size
    → n ≤ left
    → p + n ≤ size
within p n left size room there inside le = omega arith

-- A round stays within the file and does not go back.
pub stream_round_bounds :
    (file : Bytes) (s : Streaming)
    → s.position ≤ length file
    → (s.position ≤ (stream_round file s).position) × ((stream_round file s).position ≤ length file)
unfolding stream_round
stream_round_bounds file s inside =
    let there = length-drop s.position file in
    let room = take-length-cases buffer_size (drop s.position file) in
    elim (Bool-cases s.failed) [
      | inl failed ↦ rw failed (omega arith, inside)
      | inr fine ↦ elim (Bool-cases (length (read_file file s.position) == 0)) [
        | inl empty ↦ rw (fine, empty) (omega arith, inside)
        | inr more ↦
            rw (fine, more)
              (
                omega arith,
                within s.position _ _ (length file) room there inside
                    (take-le buffer_size (drop s.position file)),
              )
      ]
    ]

-- Where it does not have to clear a failure, it gets a whole buffer or all that is left.
stream_round_progress :
    (file : Bytes) (s : Streaming)
    → s.position ≤ length file
    → s.failed ≡ false
    → (s.position + buffer_size ≤ (stream_round file s).position)
      ⊎ (length file ≤ (stream_round file s).position)
unfolding stream_round
stream_round_progress file s inside fine =
    let there = length-drop s.position file in
    let room = take-length-cases buffer_size (drop s.position file) in
    elim (Bool-cases (length (read_file file s.position) == 0)) [
      | inl empty ↦ rw (fine, empty) (ground (arith, room, there))
      | inr some' ↦ rw (fine, some') (ground (arith, room, there))
    ]

stream_round-cleared :
    (file : Bytes) (s : Streaming)
    → s.failed ≡ true
    → stream_round file s ≡ record s { failed = false }
unfolding stream_round
stream_round-cleared file s failed = rw failed

-- Two rounds get a whole buffer, or all that is left.
two_rounds :
    (file : Bytes) (s : Streaming)
    → s.position ≤ length file
    → (s.position + buffer_size ≤ (stream_round file (stream_round file s)).position)
      ⊎ (length file ≤ (stream_round file (stream_round file s)).position)
two_rounds file s inside = elim (Bool-cases s.failed) [
  | inl failed ↦
      rw (stream_round-cleared file s failed)
        (stream_round_progress file (record s { failed = false }) inside refl)
  | inr fine ↦
      let s' = stream_round file s in
      let (le, inside') = stream_round_bounds file s inside in
      let (le', inside'') = stream_round_bounds file s' inside' in
      ground (arith, stream_round_progress file s inside fine)
]

abbrev pub twice : ℕ → ℕ
twice zero = zero
twice (suc m) = suc (suc (twice m))

constant_end :
    (file : Bytes) (m i : ℕ) (s : Streaming)
    → s.position ≤ length file
    → length file ≤ s.position + m * buffer_size
    → (stream_rounds (λ k. file) i (twice m) s).position ≡ length file
unfolding stream_rounds
constant_end file zero i s inside near = omega arith
constant_end file (suc m) i s inside near =
    let s' = stream_round file s in
    let (le, inside') = stream_round_bounds file s inside in
    let (le', inside'') = stream_round_bounds file s' inside' in
    constant_end file m (suc (suc i)) (stream_round file s') inside''
      (ground (arith, two_rounds file s inside))

constant-IsMirror :
    (offset : ℕ) (file : Bytes) (n i : ℕ) (s : Streaming)
    → IsMirror offset file s
    → IsMirror offset file (stream_rounds (λ k. file) i n s)
unfolding stream_rounds
constant-IsMirror offset file zero i s h = h
constant-IsMirror offset file (suc n) i s h =
    constant-IsMirror offset file n (suc i) (stream_round file s)
      (stream_round-IsMirror offset file s h)

drop_all : (s : Bytes) → drop (length s) s ≡ []
drop_all [] = refl
drop_all (c ∷ s) = drop_all s

pub drop_none : (n : ℕ) (s : Bytes) → length s ≤ n → drop n s ≡ []
drop_none zero [] h = refl
drop_none zero (c ∷ s) h = absurd (omega arith)
drop_none (suc n) [] h = refl
drop_none (suc n) (c ∷ s) h = drop_none n s (omega arith)

-- Two rounds for each buffer of what is left send all of it, where the file does not change.
pub stream_rounds_complete :
    (offset : ℕ) (file : Bytes) (m : ℕ) (s : Streaming)
    → s.sent ++ drop s.position file ≡ drop offset file
    → s.position ≤ length file
    → length file ≤ s.position + m * buffer_size
    → (stream_rounds (λ k. file) 0 (twice m) s).sent ≡ drop offset file
stream_rounds_complete offset file m s h inside near =
    let last = stream_rounds (λ k. file) 0 (twice m) s in
    let none' : drop last.position file ≡ [] =
      ap (λ p. drop p file) (constant_end file m 0 s inside near) ∙ drop_all file in
    sym (append-nil last.sent)
    ∙ ap (λ t. last.sent ++ t) (sym none')
    ∙ constant-IsMirror offset file (twice m) 0 s h

-- What has been sent when more is logged.
pub grown :
    (offset : ℕ) (file more : Bytes) (s : Streaming)
    → offset ≤ length file
    → s.position ≤ length file
    → IsMirror offset file s
    → IsMirror offset (file ++ more) s
grown offset file more s started inside h =
    ap (λ t. s.sent ++ t) (drop-append_left s.position file more inside)
    ∙ sym (append_assoc s.sent (drop s.position file) more)
    ∙ ap (λ t. t ++ more) h
    ∙ sym (drop-append_left offset file more started)

module _ (files : ℕ → Bytes) (grows : (i : ℕ) → (more : Bytes) × (files (suc i) ≡ files i ++ more))
    (offset : ℕ) where
  growing-IsMirror :
      (n i k : ℕ) (s : Streaming)
      → i + n ≡ k
      → offset ≤ length (files i)
      → s.position ≤ length (files i)
      → IsMirror offset (files i) s
      → IsMirror offset (files k) (stream_rounds files i n s)
        × ((stream_rounds files i n s).position ≤ length (files k))
  unfolding stream_rounds
  growing-IsMirror zero i k s e started inside h =
      let same : i ≡ k = omega arith in rw (← same) (h, inside)
  growing-IsMirror (suc n) i k s e started inside h =
      let s' = stream_round (files i) s in
      let (le, inside') = stream_round_bounds (files i) s inside in
      let (more, growth) = grows i in
      let longer : length (files i) ≤ length (files (suc i)) =
        rw growth (omega (arith, length-append (files i) more)) in
      let h' : IsMirror offset (files (suc i)) s' = rw growth (
        grown offset (files i) more s' started inside'
          (stream_round-IsMirror offset (files i) s h)) in
      growing-IsMirror n (suc i) k s' (omega arith) (omega arith) (omega arith) h'

  -- While the primary's log only grows, the PSYNC stream from an offset within it, below 2 ^ 63,
  -- loses nothing and sends nothing twice: after any number of rounds, what has been sent and what
  -- stands behind the position are the log from the offset on, and the position is within the log.
  pub stream_rounds-IsMirror :
      (n : ℕ)
      → offset < two63
      → offset ≤ length (files 0)
      → ((stream_rounds files 0 n (seek offset)).sent
            ++ drop (stream_rounds files 0 n (seek offset)).position (files n)
          ≡ drop offset (files n))
        × ((stream_rounds files 0 n (seek offset)).position ≤ length (files n))
  stream_rounds-IsMirror n small started = rw (seek_small offset small) (
      growing-IsMirror n 0 n (record { position = offset; failed = false; sent = [] }) (omega arith)
        started started refl)
