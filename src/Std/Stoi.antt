-- ===== src/Std/Stoi.antt =====
-- `std::stoi` in base ten: blanks are skipped, a sign may stand in front, what follows the digits is
-- left. It throws where there is no digit and where the value is no 32-bit `int`; nothing catches
-- either exception, so both are one here.
use distributed_in_memory_ke.Prelude.{
  ℕ, ◌+◌, ◌%◌, ◌^◌, ◌≡◌, refl, Bool, ◌&&◌, ◌||◌, ◌==◌, leb, Option, none, some, if◌then◌else◌, [],
  ◌∷◌, ℤ, pos, to_u64, Bytes, codes,
}
use distributed_in_memory_ke.Std.Decimal.{scan_number, fits_below, as_positive, as_negative}

-- `isspace` in the default locale.
abbrev pub is_space : ℕ → Bool
is_space c = c == b' ' || (leb 9 c && leb c 13)

unfoldable pub skip_spaces : Bytes → Bytes
skip_spaces [] = []
skip_spaces (c ∷ s) = if is_space c then skip_spaces s else c ∷ s

abbrev pub number_only : Option (ℤ × Bytes) → Option ℤ
number_only none = none
number_only (some (z, rest)) = some z

abbrev pub signed_number : Bytes → Option ℤ
signed_number [] = none
signed_number (c ∷ s) =
    if c == b'-'
    then number_only (as_negative (fits_below (2 ^ 31 + 1) (scan_number s)))
    else if c == b'+'
    then number_only (as_positive (fits_below (2 ^ 31) (scan_number s)))
    else number_only (as_positive (fits_below (2 ^ 31) (scan_number (c ∷ s))))

unfoldable pub stoi : Bytes → Option ℤ
unfolding skip_spaces scan_number
stoi s = signed_number (skip_spaces s)

-- The conversion of an `int` to `uint16_t`.
abbrev pub to_u16 : ℤ → ℕ
to_u16 z = to_u64 z % 2 ^ 16

reads_sign : stoi (codes " +12a") ≡ some (pos 12)
unfolding stoi
reads_sign = refl
