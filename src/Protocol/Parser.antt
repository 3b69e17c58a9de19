-- ===== src/Protocol/Parser.antt =====
-- `RESPParser` (src/protocol/RESP.cpp). A buffer is read at a position that may also move backwards,
-- so the position is an index into the whole buffer, as in the source.
-- `reserve_limit` is the largest count for which `arr.reserve(count)` succeeds: above it the call
-- throws, `std::length_error` past `max_size()`, `std::bad_alloc` where memory does not suffice.
use distributed_in_memory_ke.Prelude.{
  ℕ, zero, suc, ◌+◌, ◌%◌, Bool, false, ◌&&◌, Option, none, some, [], ◌∷◌, ltb, leb, ◌==◌,
  if◌then◌else◌, ℤ, pos, negsuc, to_u64, two64, Bytes, length, take, drop, get_or,
}
use distributed_in_memory_ke.Std.Decimal.{from_chars_i64}
use distributed_in_memory_ke.Protocol.Value.{
  RespValue, RespValues, simple_string, error, integer, bulk_string, array, null, nil, cons,
}

-- What a call of the parser does: it returns a value and the position behind it; or `std::nullopt`,
-- with the position put back; or it throws. `out_of_fuel` is a recursion deeper than the fuel.
pub data Parsed {ℓ} (A : Type ℓ) : Type ℓ where
  value : A → ℕ → Parsed A
  incomplete : Parsed A
  throws : Parsed A
  out_of_fuel : Parsed A

abbrev pub bind {ℓ κ} : {A : Type ℓ} {B : Type κ} → Parsed A → (A → ℕ → Parsed B) → Parsed B
bind (value a p) f = f a p
bind incomplete f = incomplete
bind throws f = throws
bind out_of_fuel f = out_of_fuel

abbrev pub starts_crlf : Bytes → Bool
starts_crlf (a ∷ b ∷ s) = (a == 13) && (b == 10)
starts_crlf _ = false

abbrev pub further : Option ℕ → Option ℕ
further none = none
further (some i) = some (suc i)

-- The index of the first line break.
unfoldable pub find_crlf : Bytes → Option ℕ
find_crlf [] = none
find_crlf (c ∷ s) = if starts_crlf (c ∷ s) then some 0 else further (find_crlf s)

abbrev pub line_at : Bytes → ℕ → Option ℕ → Option (Bytes × ℕ)
line_at buffer p none = none
line_at buffer p (some i) = some (take i (drop p buffer), p + i + 2)

-- The line at the position, and the position behind its line break.
unfoldable pub read_line : Bytes → ℕ → Option (Bytes × ℕ)
unfolding find_crlf
read_line buffer p = line_at buffer p (find_crlf (drop p buffer))

abbrev pub is_minus_one : ℤ → Bool
is_minus_one (pos n) = false
is_minus_one (negsuc n) = n == 0

-- The rounds of `for (int64_t i = 0; i < count; ++i)`.
abbrev pub rounds : ℤ → ℕ
rounds (pos n) = n
rounds (negsuc n) = 0

abbrev pub integer_frame : ℕ → Option (ℤ × Bytes) → Parsed RespValue
integer_frame p none = incomplete
integer_frame p (some (val, _)) = value (integer val) p

-- `pos + len + 2` is computed in `size_t`: the length, which may be negative, wraps around.
unfoldable pub bulk_end : ℕ → ℤ → ℕ
bulk_end p len = (p + to_u64 len + 2) % two64

unfoldable pub bulk_body : Bytes → ℕ → ℤ → Parsed RespValue
unfolding bulk_end
bulk_body buffer p len =
    if is_minus_one len
    then value null p
    else if ltb (length buffer) (bulk_end p len)
    then incomplete
    else value (bulk_string (take (to_u64 len) (drop p buffer))) (bulk_end p len)

abbrev pub bulk_frame : Bytes → ℕ → Option (ℤ × Bytes) → Parsed RespValue
bulk_frame buffer p none = incomplete
bulk_frame buffer p (some (len, _)) = bulk_body buffer p len

module _ (reserve_limit : ℕ) (items : ℕ → ℕ → Parsed RespValues) where
  unfoldable pub array_body : ℕ → ℤ → Parsed RespValue
  array_body p count =
      if is_minus_one count
      then value null p
      else if ltb reserve_limit (to_u64 count)
      then throws
      else bind (items (rounds count) p) (λ vs p'. value (array vs) p')

  abbrev pub array_frame : ℕ → Option (ℤ × Bytes) → Parsed RespValue
  array_frame p none = incomplete
  array_frame p (some (count, _)) = array_body p count

  -- The switch on the prefix; `break` and an unknown prefix end in `std::nullopt`.
  abbrev pub frame : Bytes → ℕ → Bytes → ℕ → Parsed RespValue
  frame buffer prefix content p =
      if prefix == b'+'
      then value (simple_string content) p
      else if prefix == b'-'
      then value (error content) p
      else if prefix == b':'
      then integer_frame p (from_chars_i64 content)
      else if prefix == b'$'
      then bulk_frame buffer p (from_chars_i64 content)
      else if prefix == b'*'
      then array_frame p (from_chars_i64 content)
      else incomplete

  -- A line has a prefix and a content, `line.substr(1)`; an empty line is refused.
  abbrev pub on_line : Bytes → ℕ → Option (Bytes × ℕ) → Parsed RespValue
  on_line buffer prefix none = incomplete
  on_line buffer prefix (some ([], p)) = incomplete
  on_line buffer prefix (some (c ∷ content, p)) = frame buffer prefix content p

  unfoldable pub parse_value : Bytes → ℕ → Parsed RespValue
  unfolding array_body bulk_body read_line
  parse_value buffer p =
      if leb (length buffer) p
      then incomplete
      else on_line buffer (get_or buffer p 0) (read_line buffer p)

-- `parse_internal`, and the loop over the elements of an array that it contains.
module _ (reserve_limit : ℕ) where
  unfoldable mutual
    unfolding parse_value

    pub parse_internal : ℕ → Bytes → ℕ → Parsed RespValue
    parse_internal zero buffer p = out_of_fuel
    parse_internal (suc f) buffer p = parse_value reserve_limit (parse_items f buffer) buffer p

    pub parse_items : ℕ → Bytes → ℕ → ℕ → Parsed RespValues
    parse_items zero buffer n p = out_of_fuel
    parse_items (suc f) buffer zero p = value nil p
    parse_items (suc f) buffer (suc n) p =
        bind (parse_internal f buffer p)
          (λ v p'. bind (parse_items f buffer n p') (λ vs p''. value (cons v vs) p''))

  -- `parse` starts at 0; the position of a value is the number of bytes consumed.
  unfoldable pub parse : ℕ → Bytes → Parsed RespValue
  unfolding parse_internal
  parse f buffer = parse_internal f buffer 0
