-- ===== src/Std/Decimal.antt =====
-- `std::from_chars` reads the longest prefix of decimal digits: with a minus sign in front for a
-- signed type, with no blank and no plus sign. It fails where there is no digit and where the value
-- does not fit the type; both failures are one to every caller in the program, so the result is an
-- option. A success gives the value and the text behind the digits (what `ptr` points at).
use distributed_in_memory_ke.Prelude.{
  ℕ, zero, suc, ◌+◌, ◌-◌, ◌*◌, ◌/◌, ◌%◌, ◌≡◌, refl, Bool, ◌&&◌, Option, none, some, [], ◌∷◌, ◌++◌,
  ltb, leb, ◌==◌, if◌then◌else◌, ℤ, pos, negsuc, two63, two64, Bytes, codes,
}

abbrev pub is_digit : ℕ → Bool
is_digit c = leb b'0' c && leb c b'9'

-- The digits at the front, read behind the value `n`, and what follows them.
unfoldable pub scan_digits : Bytes → ℕ → ℕ × Bytes
scan_digits [] n = (n, [])
scan_digits (c ∷ s) n = if is_digit c then scan_digits s (n * 10 + (c - b'0')) else (n, c ∷ s)

-- One digit at least.
unfoldable pub scan_number : Bytes → Option (ℕ × Bytes)
unfolding scan_digits
scan_number [] = none
scan_number (c ∷ s) = if is_digit c then some (scan_digits (c ∷ s) 0) else none

abbrev pub fits_below : ℕ → Option (ℕ × Bytes) → Option (ℕ × Bytes)
fits_below bound none = none
fits_below bound (some (n, rest)) = if ltb n bound then some (n, rest) else none

unfoldable pub from_chars_u64 : Bytes → Option (ℕ × Bytes)
unfolding scan_number
from_chars_u64 s = fits_below two64 (scan_number s)

abbrev pub as_positive : Option (ℕ × Bytes) → Option (ℤ × Bytes)
as_positive none = none
as_positive (some (n, rest)) = some (pos n, rest)

-- -0 is 0.
abbrev pub negate : ℕ → ℤ
negate zero = pos 0
negate (suc n) = negsuc n

abbrev pub as_negative : Option (ℕ × Bytes) → Option (ℤ × Bytes)
as_negative none = none
as_negative (some (n, rest)) = some (negate n, rest)

unfoldable pub from_chars_i64 : Bytes → Option (ℤ × Bytes)
unfolding scan_number
from_chars_i64 [] = none
from_chars_i64 (c ∷ s) =
    if c == b'-'
    then as_negative (fits_below (two63 + 1) (scan_number s))
    else as_positive (fits_below two63 (scan_number (c ∷ s)))

-- The digits of a number; each round divides it by ten, so `suc n` rounds are enough for `n`.
unfoldable pub to_digits : ℕ → ℕ → Bytes
to_digits zero n = []
to_digits (suc f) n =
    let more = to_digits f (n / 10) ++ (b'0' + n % 10) ∷ [] in
    if ltb n 10 then (b'0' + n) ∷ [] else more

unfoldable pub to_string_u64 : ℕ → Bytes
unfolding to_digits
to_string_u64 n = to_digits (suc n) n

unfoldable pub to_string_i64 : ℤ → Bytes
unfolding to_string_u64
to_string_i64 (pos n) = to_string_u64 n
to_string_i64 (negsuc n) = b'-' ∷ to_string_u64 (suc n)

reads_negative : from_chars_i64 (codes "-42x") ≡ some (negsuc 41, codes "x")
unfolding from_chars_i64
reads_negative = refl

too_large : from_chars_i64 (codes "9223372036854775808") ≡ none
unfolding from_chars_i64
too_large = refl

prints_max : to_string_u64 18446744073709551615 ≡ codes "18446744073709551615"
unfolding to_string_u64
prints_max = refl
