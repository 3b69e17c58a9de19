-- ===== src/Std/DecimalRoundTrip.antt =====
-- Printing a number and reading the print.
use distributed_in_memory_ke.Prelude.{
  ℕ, zero, suc, ◌+◌, ◌-◌, ◌*◌, ◌/◌, ◌%◌, ◌<◌, ◌≡◌, refl, true, inl, inr, some, [], ◌∷◌, ◌++◌, arith,
  ltb, Bool-cases, ℤ, pos, negsuc, InInt64, two64, two63, Bytes,
}
use distributed_in_memory_ke.Std.Decimal.{
  is_digit, scan_digits, scan_number, from_chars_u64, from_chars_i64, to_digits, to_string_u64,
  to_string_i64,
}

-- No byte of the text is a line break or any other non-digit.
abbrev pub AllDigits : Bytes → Type 0
AllDigits [] = Unit {0}
AllDigits (c ∷ s) = (is_digit c ≡ true) × AllDigits s

AllDigits-append : (s t : Bytes) → AllDigits s → AllDigits t → AllDigits (s ++ t)
AllDigits-append [] t hs ht = ht
AllDigits-append (c ∷ s) t hs ht = (hs.0, AllDigits-append s t hs.1 ht)

last_digit : (n : ℕ) → is_digit (b'0' + n % 10) ≡ true
last_digit n = ground arith

small_digit : (n : ℕ) → ltb n 10 ≡ true → is_digit (b'0' + n) ≡ true
small_digit n h = ground arith

pub to_digits-AllDigits : (f n : ℕ) → AllDigits (to_digits f n)
unfolding to_digits
to_digits-AllDigits zero n = tt
to_digits-AllDigits (suc f) n = elim (Bool-cases (ltb n 10)) [
  | inl small ↦ rw small (small_digit n small, tt)
  | inr large ↦ rw large (AllDigits-append _ _ (to_digits-AllDigits f (n / 10)) (last_digit n, tt))
]

scan_digits-append :
    (s t : Bytes) (n : ℕ) → AllDigits s → scan_digits (s ++ t) n ≡ scan_digits t (scan_digits s n).0
unfolding scan_digits
scan_digits-append [] t n h = refl
scan_digits-append (c ∷ s) t n h = rw h.0 (scan_digits-append s t _ h.1)

scan_digits-digit :
    (c n : ℕ) → is_digit c ≡ true → scan_digits (c ∷ []) n ≡ (n * 10 + (c - b'0'), [])
unfolding scan_digits
scan_digits-digit c n h = rw h

digit_value : (n : ℕ) → n / 10 * 10 + (b'0' + n % 10 - b'0') ≡ n
digit_value n = omega arith

pub scan_digits-to_digits : (f n : ℕ) → n < f → scan_digits (to_digits f n) 0 ≡ (n, [])
unfolding to_digits
scan_digits-to_digits zero n h = absurd (omega arith)
scan_digits-to_digits (suc f) n h = elim (Bool-cases (ltb n 10)) [
  | inl small ↦ rw (small, scan_digits-digit (b'0' + n) 0 (small_digit n small)) (ground arith)
  | inr large ↦ rw (
    large,
    scan_digits-append _ _ 0 (to_digits-AllDigits f (n / 10)),
    scan_digits-to_digits f (n / 10) (ground arith),
    scan_digits-digit _ (n / 10) (last_digit n),
    digit_value n,
  )
]

-- A print is a digit and more digits.
pub to_digits_shape :
    (f n : ℕ) → (c : ℕ) × (s : Bytes) × (to_digits (suc f) n ≡ c ∷ s) × (is_digit c ≡ true)
unfolding to_digits
to_digits_shape zero n = elim (Bool-cases (ltb n 10)) [
  | inl small ↦ (b'0' + n, [], rw small, small_digit n small)
  | inr large ↦ (b'0' + n % 10, [], rw large, last_digit n)
]
to_digits_shape (suc f) n = elim (Bool-cases (ltb n 10)) [
  | inl small ↦ (b'0' + n, [], rw small, small_digit n small)
  | inr large ↦
      let (c, s, e, d) = to_digits_shape f (n / 10) in
      (c, s ++ (b'0' + n % 10) ∷ [], rw (large, e), d)
]

scan_number-digits :
    (c : ℕ) (s : Bytes) → is_digit c ≡ true → scan_number (c ∷ s) ≡ some (scan_digits (c ∷ s) 0)
unfolding scan_number
scan_number-digits c s h = rw h

pub scan_number-to_string : (n : ℕ) → scan_number (to_string_u64 n) ≡ some (n, [])
unfolding to_string_u64
scan_number-to_string n =
    let (c, s, e, d) = to_digits_shape n n in
    let back = scan_digits-to_digits (suc n) n (omega arith) in
    rw (e, scan_number-digits c s d, ← e, back)

pub from_chars-to_string_u64 : (n : ℕ) → n < two64 → from_chars_u64 (to_string_u64 n) ≡ some (n, [])
unfolding from_chars_u64
from_chars-to_string_u64 n h = rw (scan_number-to_string n) (ground arith)

not_minus : (c : ℕ) → is_digit c ≡ true → (c ≡ b'-') → ⊥
not_minus c h e = ground arith

from_chars_i64-digit :
    (c : ℕ) (s : Bytes) (n : ℕ)
    → is_digit c ≡ true
    → scan_number (c ∷ s) ≡ some (n, [])
    → n < two63
    → from_chars_i64 (c ∷ s) ≡ some (pos n, [])
unfolding from_chars_i64
from_chars_i64-digit c s n d e h = ground arith

-- Every `int64_t` is read back from its print, to the last byte.
pub from_chars-to_string_i64 : (z : ℤ) → InInt64 z → from_chars_i64 (to_string_i64 z) ≡ some (z, [])
unfolding to_string_i64 to_string_u64
from_chars-to_string_i64 (pos n) h =
    let (c, s, e, d) = to_digits_shape n n in
    let back : scan_number (c ∷ s) ≡ some (n, []) = rw (← e) (scan_number-to_string n) in
    rw e (from_chars_i64-digit c s n d back h)
from_chars-to_string_i64 (negsuc n) h =
    unfold from_chars_i64 in rw (scan_number-to_string (suc n)) (ground arith)
