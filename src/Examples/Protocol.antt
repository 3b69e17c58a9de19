-- ===== src/Examples/Protocol.antt =====
-- Runs of the laws of the protocol (src/protocol/RESP.cpp).
use distributed_in_memory_ke.Prelude.{◌≡◌, ◌++◌, refl, arith, Bytes, codes, length}
use distributed_in_memory_ke.Protocol.Value.{serialize, crlf}
use distributed_in_memory_ke.Protocol.Parser.{parse, value, out_of_fuel}
use distributed_in_memory_ke.Prelude.{to_u64}
use distributed_in_memory_ke.Std.Decimal.{from_chars_i64}
use distributed_in_memory_ke.Protocol.Value.{array, bulk_string, cons, nil}
use distributed_in_memory_ke.Protocol.RoundTrip.{IsFrame, parse-serialize}
use distributed_in_memory_ke.Protocol.Closed.{Yields, parse-IsFrame}
use distributed_in_memory_ke.Protocol.Progress.{EndsWithin, no_negative_bulk}
use distributed_in_memory_ke.Protocol.Total.{parse-EndsWithin}
use distributed_in_memory_ke.Protocol.Divergence.{loop_frame, parse-loop_frame}
use distributed_in_memory_ke.Std.Decimal.{to_string_u64}
use distributed_in_memory_ke.Examples.{set_request}

parse-serialize_example :
    parse 100 40 (serialize set_request ++ codes "*1")
    ≡ value set_request (length (serialize set_request))
unfolding serialize to_string_u64
parse-serialize_example =
    parse-serialize 100 set_request (codes "*1") 40 (omega arith, (tt, (tt, (tt, tt))))
      (omega arith) (omega arith)

-- An array of which only the first element has come.
abbrev started : Bytes
started = codes "*2" ++ (crlf ++ (codes "$4" ++ (crlf ++ (codes "ECHO" ++ crlf))))

parse-EndsWithin_example : EndsWithin 1 (length started) (parse 100 30 started)
unfolding no_negative_bulk
parse-EndsWithin_example = parse-EndsWithin 100 started (omega arith) refl 30 (omega arith)

parse-loop_frame_example : parse 100 1000 (loop_frame (codes "x")) ≡ out_of_fuel
parse-loop_frame_example = parse-loop_frame 100 (omega arith) (codes "x") 1000

echo_hi :
    parse 100 9 (
      codes "*2"
      ++ crlf
      ++ codes "$4"
      ++ crlf
      ++ codes "ECHO"
      ++ crlf
      ++ codes "$2"
      ++ crlf
      ++ codes "hi"
      ++ crlf
      ++ codes "*")
    ≡ value (array (cons (bulk_string (codes "ECHO")) (cons (bulk_string (codes "hi")) nil))) 22
unfolding parse from_chars_i64 to_u64
echo_hi = refl

-- A negative length other than -1 is taken for the length of what is left.
negative_length :
    parse 100 1 (codes "$-2" ++ crlf ++ codes "abc") ≡ value (bulk_string (codes "abc")) 5
unfolding parse from_chars_i64 to_u64
negative_length = refl

parse-IsFrame_example : Yields (IsFrame 100) (parse 100 9 started)
parse-IsFrame_example = parse-IsFrame 100 9 started
