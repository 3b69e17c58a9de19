-- ===== src/Protocol/Lines.antt =====
-- What `read_line` (src/protocol/RESP.cpp) returns on a text that is written with a line break, and
-- where a frame of each type takes the parser.
use distributed_in_memory_ke.Prelude.{
  ℕ, zero, suc, ◌+◌, ◌≡◌, ◌∙◌, ap, sym, refl, true, false, inl, inr, Option, none, some, [], ◌∷◌,
  ◌++◌, arith, Bool-cases, Bytes, length, take, drop, get_or, length-drop, take-append, drop-append,
  drop-drop,
}
use distributed_in_memory_ke.Std.Decimal.{is_digit, to_string_u64, to_string_i64}
use distributed_in_memory_ke.Std.DecimalRoundTrip.{AllDigits, to_digits-AllDigits}
use distributed_in_memory_ke.Prelude.{ℤ, pos, negsuc}
use distributed_in_memory_ke.Protocol.Value.{crlf}
use distributed_in_memory_ke.Protocol.Parser.{starts_crlf, find_crlf, read_line, further, line_at}

-- No line break within the text.
abbrev pub IsOneLine : Bytes → Type 0
IsOneLine s = find_crlf s ≡ none

further-none : (o : Option ℕ) → further o ≡ none → o ≡ none
further-none none h = refl
further-none (some i) h = cc

pub IsOneLine-tail :
    (c : ℕ) (s : Bytes) → IsOneLine (c ∷ s) → (starts_crlf (c ∷ s) ≡ false) × IsOneLine s
unfolding find_crlf
IsOneLine-tail c s h = elim (Bool-cases (starts_crlf (c ∷ s))) [
  | inl yes' ↦ absurd (cc (rw yes' at h))
  | inr no' ↦ (no', further-none _ (rw no' at h))
]

starts_crlf-append :
    (c : ℕ) (s rest : Bytes)
    → starts_crlf (c ∷ s) ≡ false
    → starts_crlf (c ∷ (s ++ (crlf ++ rest))) ≡ false
starts_crlf-append c [] rest h = ground arith
starts_crlf-append c (d ∷ s) rest h = h

pub find_crlf-append :
    (s rest : Bytes) → IsOneLine s → find_crlf (s ++ (crlf ++ rest)) ≡ some (length s)
unfolding find_crlf
find_crlf-append [] rest h = refl
find_crlf-append (c ∷ s) rest h =
    let (first, more) = IsOneLine-tail c s h in
    rw (starts_crlf-append c s rest first, find_crlf-append s rest more)

-- A position with a text and a line break behind it.
pub read_line-append :
    (buffer : Bytes) (p : ℕ) (s rest : Bytes)
    → drop p buffer ≡ s ++ (crlf ++ rest)
    → IsOneLine s
    → read_line buffer p ≡ some (s, p + length s + 2)
unfolding read_line
read_line-append buffer p s rest e h =
    let found : find_crlf (drop p buffer) ≡ some (length s) = rw e (find_crlf-append s rest h) in
    let text : take (length s) (drop p buffer) ≡ s = rw e (take-append s (crlf ++ rest)) in
    rw (found, line_at) (rw text)

-- What stands behind a text that stands at the position.
pub drop-text :
    (buffer : Bytes) (p : ℕ) (s rest : Bytes)
    → drop p buffer ≡ s ++ rest
    → drop (p + length s) buffer ≡ rest
drop-text buffer p s rest e = sym (drop-drop p (length s) buffer) ∙ rw (e, drop-append s rest)

pub drop-line :
    (buffer : Bytes) (p : ℕ) (s rest : Bytes)
    → drop p buffer ≡ s ++ (crlf ++ rest)
    → drop (p + length s + 2) buffer ≡ rest
drop-line buffer p s rest e =
    drop-text buffer (p + length s) crlf rest (drop-text buffer p s (crlf ++ rest) e)

-- A text that stands at the position ends within the buffer.
pub drop-length :
    (buffer : Bytes) (p : ℕ) (c : ℕ) (s : Bytes)
    → drop p buffer ≡ c ∷ s
    → p + suc (length s) ≡ length buffer
drop-length buffer p c s e = omega (arith, length-drop p buffer, ap length e)

pub get_or-drop :
    (buffer : Bytes) (p : ℕ) (c d : ℕ) (s : Bytes) → drop p buffer ≡ c ∷ s → get_or buffer p d ≡ c
get_or-drop [] zero c d s e = cc
get_or-drop [] (suc p) c d s e = cc
get_or-drop (b ∷ buffer) zero c d s e = cc
get_or-drop (b ∷ buffer) (suc p) c d s e = get_or-drop buffer p c d s e

digit-starts_crlf : (c : ℕ) (s : Bytes) → is_digit c ≡ true → starts_crlf (c ∷ s) ≡ false
digit-starts_crlf c [] h = refl
digit-starts_crlf c (d ∷ s) h = ground arith

AllDigits-IsOneLine : (s : Bytes) → AllDigits s → IsOneLine s
unfolding find_crlf
AllDigits-IsOneLine [] h = refl
AllDigits-IsOneLine (c ∷ s) h = rw (digit-starts_crlf c s h.0, AllDigits-IsOneLine s h.1)

-- A prefix other than a carriage return starts no line break.
pub prefix-IsOneLine : (c : ℕ) (s : Bytes) → (c ≡ 13 → ⊥) → IsOneLine s → IsOneLine (c ∷ s)
unfolding find_crlf
prefix-IsOneLine c [] n h = refl
prefix-IsOneLine c (d ∷ s) n h = rw h (ground (arith, n))

pub to_string_u64-IsOneLine : (n : ℕ) → IsOneLine (to_string_u64 n)
unfolding to_string_u64
to_string_u64-IsOneLine n = AllDigits-IsOneLine _ (to_digits-AllDigits (suc n) n)

pub to_string_i64-IsOneLine : (z : ℤ) → IsOneLine (to_string_i64 z)
unfolding to_string_i64
to_string_i64-IsOneLine (pos n) = to_string_u64-IsOneLine n
to_string_i64-IsOneLine (negsuc n) =
    prefix-IsOneLine b'-' _ (λ e. omega arith) (to_string_u64-IsOneLine (suc n))
