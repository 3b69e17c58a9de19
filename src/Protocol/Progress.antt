-- ===== src/Protocol/Progress.antt =====
-- Bounds on the positions of the parser (src/protocol/RESP.cpp) on texts with no negative bulk length.
use distributed_in_memory_ke.Prelude.{
  ltb→lt, ℕ, zero, suc, ◌+◌, ◌≤◌, ◌<◌, ◌≡◌, ◌∙◌, ap, refl, Bool, true, false, not, ◌&&◌, inl, inr,
  Option, none, some, [], ◌∷◌, arith, Bytes, ℤ, pos, to_u64, two63, length, take, drop, length-drop,
  ltb, ◌==◌, Bool-cases, Option-cases, get_or,
}
use distributed_in_memory_ke.Std.Decimal.{from_chars_i64, scan_number, fits_below, as_positive}
use distributed_in_memory_ke.Protocol.Lines.{get_or-drop}
use distributed_in_memory_ke.Protocol.Value.{RespValues}
use distributed_in_memory_ke.Protocol.Parser.{
  Parsed, value, incomplete, throws, out_of_fuel, bind, find_crlf, line_at, read_line, is_minus_one,
  rounds, bulk_end, bulk_body, bulk_frame, array_frame, integer_frame, array_body,
}

-- A bulk header with a minus sign at the front of the text.
abbrev pub starts_negative : Bytes → Bool
starts_negative (a ∷ b ∷ s) = (a == b'$') && (b == b'-')
starts_negative _ = false

-- No bulk header with a minus sign anywhere in the text.
unfoldable pub no_negative_bulk : Bytes → Bool
no_negative_bulk [] = true
no_negative_bulk (c ∷ s) = not (starts_negative (c ∷ s)) && no_negative_bulk s

-- The call ends, and a value that it returns ends between two positions.
abbrev pub EndsWithin {ℓ} : {A : Type ℓ} → ℕ → ℕ → Parsed A → Type 0
EndsWithin lo hi (value a q) = (lo ≤ q) × (q ≤ hi)
EndsWithin lo hi incomplete = Unit {0}
EndsWithin lo hi throws = Unit {0}
EndsWithin lo hi out_of_fuel = ⊥

pub EndsWithin-bind {ℓ κ} :
    {A : Type ℓ} {B : Type κ} (lo mid hi : ℕ) (r : Parsed A) (f : A → ℕ → Parsed B)
    → EndsWithin mid hi r
    → ((a : A) (q : ℕ) → mid ≤ q → q ≤ hi → EndsWithin lo hi (f a q))
    → EndsWithin lo hi (bind r f)
EndsWithin-bind lo mid hi (value a q) f h k = k a q h.0 h.1
EndsWithin-bind lo mid hi incomplete f h k = tt
EndsWithin-bind lo mid hi throws f h k = tt
EndsWithin-bind lo mid hi out_of_fuel f h k = h

pub find_crlf-le : (s : Bytes) (i : ℕ) → find_crlf s ≡ some i → i + 2 ≤ length s
unfolding find_crlf
find_crlf-le [] i h = cc
find_crlf-le (c ∷ []) i h = ground arith
find_crlf-le (c ∷ d ∷ s) i h = elim (Option-cases (find_crlf (d ∷ s))) [
  | inl missing ↦ ground (arith, missing)
  | inr (j, found) ↦ ground (arith, found, find_crlf-le (d ∷ s) j found)
]

pub length-take_le : (n : ℕ) (s : Bytes) → n ≤ length s → length (take n s) ≡ n
length-take_le zero s h = refl
length-take_le (suc n) [] h = absurd (omega arith)
length-take_le (suc n) (c ∷ s) h = omega (arith, length-take_le n s)

pub no_negative_bulk-drop :
    (n : ℕ) (s : Bytes) → no_negative_bulk s ≡ true → no_negative_bulk (drop n s) ≡ true
unfolding no_negative_bulk
no_negative_bulk-drop zero s h = h
no_negative_bulk-drop (suc n) [] h = h
no_negative_bulk-drop (suc n) (c ∷ s) h = no_negative_bulk-drop n s (ground arith)

-- A line read from such a text has no negative bulk header either.
no_negative_bulk-take :
    (n : ℕ) (s : Bytes) (c : ℕ) (content : Bytes)
    → no_negative_bulk s ≡ true
    → take n s ≡ c ∷ content
    → starts_negative (c ∷ content) ≡ false
unfolding no_negative_bulk
no_negative_bulk-take zero s c content h e = cc
no_negative_bulk-take (suc n) [] c content h e = cc
no_negative_bulk-take (suc n) (a ∷ []) c [] h e = refl
no_negative_bulk-take (suc n) (a ∷ b ∷ s) c [] h e = refl
no_negative_bulk-take (suc zero) (a ∷ []) c (d ∷ content) h e = cc
no_negative_bulk-take (suc (suc n)) (a ∷ []) c (d ∷ content) h e = cc
no_negative_bulk-take (suc zero) (a ∷ b ∷ s) c (d ∷ content) h e = ground arith
no_negative_bulk-take (suc (suc n)) (a ∷ b ∷ s) c (d ∷ content) h e = ground arith

abbrev pub IsPlain : Bytes → Type 0
IsPlain [] = Unit {0}
IsPlain (c ∷ content) = starts_negative (c ∷ content) ≡ false

plain :
    (line : Bytes)
    → ((c : ℕ) (content : Bytes) → line ≡ c ∷ content → starts_negative (c ∷ content) ≡ false)
    → IsPlain line
plain [] h = tt
plain (c ∷ content) h = h c content refl

pub line_at-some :
    (buffer : Bytes) (p i : ℕ) (line : Bytes) (q : ℕ)
    → line_at buffer p (some i) ≡ some (line, q)
    → (take i (drop p buffer) ≡ line) × (p + i + 2 ≡ q)
line_at-some buffer p i line q e = (cc, cc)

as_positive-range :
    (o : Option (ℕ × Bytes)) (tail : Bytes) (len : ℤ)
    → as_positive (fits_below two63 o) ≡ some (len, tail)
    → (n : ℕ) × (len ≡ pos n) × (n < two63)
as_positive-range none tail len e = cc
as_positive-range (some (n, rest)) tail len e = elim (Bool-cases (ltb n two63)) [
  | inl fits ↦ let e' = rw fits at e in (n, cc, ltb→lt n two63 fits)
  | inr over ↦ absurd (cc (rw over at e))
]

-- A length with no minus sign is not negative.
pub from_chars_i64-positive :
    (content tail : Bytes) (len : ℤ)
    → starts_negative (b'$' ∷ content) ≡ false
    → from_chars_i64 content ≡ some (len, tail)
    → (n : ℕ) × (len ≡ pos n) × (n < two63)
unfolding from_chars_i64
from_chars_i64-positive [] tail len h e = cc
from_chars_i64-positive (c ∷ s) tail len h e =
    let signless : (c == b'-') ≡ false = ground arith in
    as_positive-range (scan_number (c ∷ s)) tail len (rw signless at e)

pub read_line_bounds :
    (buffer : Bytes) (p : ℕ) (line : Bytes) (q : ℕ)
    → p ≤ length buffer
    → no_negative_bulk buffer ≡ true
    → read_line buffer p ≡ some (line, q)
    → (q ≡ p + length line + 2) × (q ≤ length buffer) × IsPlain line
unfolding read_line
read_line_bounds buffer p line q h clean e = elim (Option-cases (find_crlf (drop p buffer))) [
  | inl missing ↦ absurd (cc (rw missing at e))
  | inr (i, found) ↦
      let room = find_crlf-le (drop p buffer) i found in
      let at_i = length-drop p buffer in
      let whole = length-take_le i (drop p buffer) (omega arith) in
      let (e₁, e₂) = line_at-some buffer p i line q (rw found at e) in
      (
        omega (arith, ap length e₁),
        omega arith,
        plain line (λ c content eq.
            no_negative_bulk-take i (drop p buffer) c content (no_negative_bulk-drop p buffer clean)
              (e₁ ∙ eq)),
      )
]

take-head :
    (i : ℕ) (s : Bytes) (c : ℕ) (content : Bytes) → take i s ≡ c ∷ content → s ≡ c ∷ drop 1 s
take-head zero s c content e = cc
take-head (suc i) [] c content e = cc
take-head (suc i) (d ∷ s) c content e = cc

-- The first byte of a line is the byte at the position.
pub read_line-head :
    (buffer : Bytes) (p c : ℕ) (content : Bytes) (q : ℕ)
    → read_line buffer p ≡ some (c ∷ content, q)
    → get_or buffer p 0 ≡ c
unfolding read_line
read_line-head buffer p c content q e = elim (Option-cases (find_crlf (drop p buffer))) [
  | inl missing ↦ absurd (cc (rw missing at e))
  | inr (i, found) ↦
      let (e₁, e₂) = line_at-some buffer p i (c ∷ content) q (rw found at e) in
      get_or-drop buffer p c 0 _ (take-head i (drop p buffer) c content e₁)
]

-- The end of a bulk string with a length that is not negative.
bulk_body-EndsWithin :
    (buffer : Bytes) (p n : ℕ)
    → p ≤ length buffer
    → length buffer + 2 < two63
    → n < two63
    → EndsWithin p (length buffer) (bulk_body buffer p (pos n))
unfolding bulk_body bulk_end to_u64
bulk_body-EndsWithin buffer p n h small fits = ground arith

pub bulk_frame-EndsWithin :
    (buffer : Bytes) (p : ℕ) (content : Bytes)
    → p ≤ length buffer
    → length buffer + 2 < two63
    → starts_negative (b'$' ∷ content) ≡ false
    → EndsWithin p (length buffer) (bulk_frame buffer p (from_chars_i64 content))
bulk_frame-EndsWithin buffer p content h small clean =
    elim (Option-cases (from_chars_i64 content)) [
      | inl failed ↦ rw failed tt
      | inr ((len, tail), read) ↦
          let (n, e, fits) = from_chars_i64-positive content tail len clean read in
          rw (read, e) (bulk_body-EndsWithin buffer p n h small fits)
    ]

pub integer_frame-EndsWithin :
    (hi p : ℕ) (r : Option (ℤ × Bytes)) → p ≤ hi → EndsWithin p hi (integer_frame p r)
integer_frame-EndsWithin hi p none h = tt
integer_frame-EndsWithin hi p (some (val, _)) h = (omega arith, h)

module _ (reserve_limit : ℕ) (items : ℕ → ℕ → Parsed RespValues) (hi p : ℕ) (inside : p ≤ hi)
    (loop : (n : ℕ) → EndsWithin p hi (items n p)) where
  array_body-EndsWithin : (count : ℤ) → EndsWithin p hi (array_body reserve_limit items p count)
  unfolding array_body
  array_body-EndsWithin count = elim (Bool-cases (is_minus_one count)) [
    | inl empty ↦ rw empty (omega arith, inside)
    | inr other ↦ elim (Bool-cases (ltb reserve_limit (to_u64 count))) [
      | inl huge ↦ rw (other, huge) tt
      | inr fine ↦
          rw (other, fine)
            (EndsWithin-bind p p hi (items (rounds count) p) _ (loop (rounds count))
              (λ vs q lo h. (lo, h)))
    ]
  ]

  pub array_frame-EndsWithin :
      (r : Option (ℤ × Bytes)) → EndsWithin p hi (array_frame reserve_limit items p r)
  array_frame-EndsWithin none = tt
  array_frame-EndsWithin (some (count, _)) = array_body-EndsWithin count
