-- ===== src/Protocol/Divergence.antt =====
-- The parser (src/protocol/RESP.cpp) on an array that holds a bulk string of negative length.
use distributed_in_memory_ke.Prelude.{
  take, ◌^◌, ◌-◌, ℕ, zero, suc, ◌≤◌, ◌≡◌, refl, ◌++◌, arith, Bytes, codes, length, to_u64, le→ltb,
}
use distributed_in_memory_ke.Std.Decimal.{from_chars_i64}
use distributed_in_memory_ke.Protocol.Value.{RespValues, array, crlf, bulk_string}
use distributed_in_memory_ke.Protocol.Parser.{
  Parsed, find_crlf, bind, parse_value, out_of_fuel, value, bulk_body, array_body, parse_internal,
  parse,
}
use distributed_in_memory_ke.Protocol.Frames.{parse_value-line}

-- `*2\r\n$-12\r\n`: twelve bytes before the end of the second header is the array's own first byte,
-- counting the two of the line break that the parser skips.
abbrev pub loop_frame : Bytes → Bytes
loop_frame rest = codes "*2" ++ (crlf ++ (codes "$-12" ++ (crlf ++ rest)))

module _ (reserve_limit : ℕ) (roomy : 2 ≤ reserve_limit) (rest : Bytes) where
  -- The outer header is an array of two elements, to be read from position 4.
  outer :
      (items : ℕ → ℕ → Parsed RespValues)
      → parse_value reserve_limit items (loop_frame rest) 0
        ≡ bind (items 2 4) (λ vs p'. value (array vs) p')
  unfolding array_body to_u64 from_chars_i64 find_crlf
  outer items =
      rw
        (parse_value-line reserve_limit items (loop_frame rest) 0 b'*' (codes "2") _ refl
          (λ h. omega arith) refl)
        (rw (le→ltb reserve_limit 2 roomy))

  -- The first element is a bulk string, and the position behind it is 0.
  inner :
      (items : ℕ → ℕ → Parsed RespValues)
      → parse_value reserve_limit items (loop_frame rest) 4
        ≡ value (bulk_string (take (2 ^ 64 - 12) rest)) 0
  unfolding bulk_body to_u64 from_chars_i64 find_crlf
  inner items =
      rw
        (parse_value-line reserve_limit items (loop_frame rest) 4 b'$' (codes "-12") _ refl
          (λ h. omega arith) refl)
        (rw (le→ltb (length (loop_frame rest)) 0 (omega arith)))

  loops : (f : ℕ) → parse_internal reserve_limit f (loop_frame rest) 0 ≡ out_of_fuel
  unfolding parse_internal
  loops zero = refl
  loops (suc zero) = rw outer
  loops (suc (suc zero)) = rw outer
  loops (suc (suc (suc zero))) = rw (outer, inner)
  loops (suc (suc (suc (suc f)))) = rw (outer, inner) (rw (loops (suc f)))

  -- On a buffer that starts with `*2\r\n$-12\r\n` the parser never returns, if it can reserve two
  -- elements: no depth of recursion is enough, whatever follows the ten bytes.
  pub parse-loop_frame : (f : ℕ) → parse reserve_limit f (loop_frame rest) ≡ out_of_fuel
  unfolding parse
  parse-loop_frame f = loops f
