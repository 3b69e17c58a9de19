-- ===== src/Protocol/Frames.antt =====
-- What the parser (src/protocol/RESP.cpp) does at a position where the print of one frame stands.
use distributed_in_memory_ke.Prelude.{
  ℕ, suc, ◌+◌, ◌≤◌, ◌<◌, ◌≡◌, some, [], ◌∷◌, ◌++◌, arith, Bytes, pos, to_u64, two63, length, take,
  drop, take-append, leb, false, le→ltb,
}
use distributed_in_memory_ke.Std.Decimal.{from_chars_i64, to_string_u64, to_string_i64}
use distributed_in_memory_ke.Std.DecimalRoundTrip.{from_chars-to_string_i64}
use distributed_in_memory_ke.Protocol.Value.{RespValues, bulk_string, array, crlf}
use distributed_in_memory_ke.Protocol.Parser.{
  Parsed, value, bulk_end, bulk_body, array_body, parse_value, frame,
}
use distributed_in_memory_ke.Protocol.Lines.{
  IsOneLine, prefix-IsOneLine, read_line-append, drop-length, get_or-drop, to_string_i64-IsOneLine,
}

lt→leb : (a b : ℕ) → a < b → leb b a ≡ false
lt→leb a b h = ground arith

pub from_chars-size : (n : ℕ) → n < two63 → from_chars_i64 (to_string_u64 n) ≡ some (pos n, [])
unfolding to_string_i64
from_chars-size n h = from_chars-to_string_i64 (pos n) h

pub to_string_u64-line : (n : ℕ) → IsOneLine (to_string_u64 n)
unfolding to_string_i64
to_string_u64-line n = to_string_i64-IsOneLine (pos n)

-- A length that ends within the buffer does not wrap around.
pub bulk_end-fits : (p n : ℕ) → p + n + 2 < two63 → bulk_end p (pos n) ≡ p + n + 2
unfolding bulk_end to_u64
bulk_end-fits p n h = omega arith

to_u64-pos : (n : ℕ) → n < two63 → to_u64 (pos n) ≡ n
unfolding to_u64
to_u64-pos n h = omega arith

-- The body of a bulk string, at the position behind its header.
pub bulk_body-text :
    (buffer : Bytes) (p : ℕ) (s rest : Bytes)
    → drop p buffer ≡ s ++ (crlf ++ rest)
    → p + length s + 2 ≤ length buffer
    → length buffer < two63
    → bulk_body buffer p (pos (length s)) ≡ value (bulk_string s) (p + length s + 2)
unfolding bulk_body
bulk_body-text buffer p s rest e fits small =
    let end = bulk_end-fits p (length s) (omega arith) in
    let text : take (length s) (drop p buffer) ≡ s = rw e (take-append s (crlf ++ rest)) in
    rw (end, to_u64-pos (length s) (omega arith), le→ltb (length buffer) (p + length s + 2) fits)
      (rw text)

module _ (reserve_limit : ℕ) (items : ℕ → ℕ → Parsed RespValues) where
  -- A line is dispatched on its first byte.
  pub parse_value-line :
      (buffer : Bytes) (p c : ℕ) (s rest : Bytes)
      → drop p buffer ≡ c ∷ (s ++ (crlf ++ rest))
      → (c ≡ 13 → ⊥)
      → IsOneLine s
      → parse_value reserve_limit items buffer p
        ≡ frame reserve_limit items buffer c s (p + suc (length s) + 2)
  unfolding parse_value
  parse_value-line buffer p c s rest e n h =
      let inside : leb (length buffer) p ≡ false =
        lt→leb p (length buffer) (omega (arith, drop-length buffer p c _ e)) in
      rw (
        inside,
        get_or-drop buffer p c 0 _ e,
        read_line-append buffer p (c ∷ s) rest e (prefix-IsOneLine c s n h),
      )

  -- The body of an array whose elements the loop reads.
  pub array_body-items :
      (p n : ℕ) (vs : RespValues) (p' : ℕ)
      → n ≤ reserve_limit
      → n < two63
      → items n p ≡ value vs p'
      → array_body reserve_limit items p (pos n) ≡ value (array vs) p'
  unfolding array_body
  array_body-items p n vs p' fits small e = rw (to_u64-pos n small, le→ltb reserve_limit n fits, e)
