-- ===== src/Protocol/RoundTrip.antt =====
-- Printing a frame and parsing the print (both in src/protocol/RESP.cpp).
use distributed_in_memory_ke.Prelude.{
  codes, lengths, ℕ, zero, suc, ◌+◌, ◌≤◌, ◌<◌, ◌≡◌, ◌∙◌, ap, refl, ◌∷◌, ◌++◌, append_assoc, arith,
  Bytes, ℤ, InInt64, two63, length, drop, length-append,
}
use distributed_in_memory_ke.Std.Decimal.{from_chars_i64, to_string_u64, to_string_i64}
use distributed_in_memory_ke.Std.DecimalRoundTrip.{from_chars-to_string_i64}
use distributed_in_memory_ke.Protocol.Value.{
  RespValue, RespValues, simple_string, error, integer, bulk_string, array, null, nil, cons, size,
  crlf, serialize, serialize_items,
}
use distributed_in_memory_ke.Protocol.Parser.{
  value, parse_internal, parse_items, parse, bulk_body, array_body,
}
use distributed_in_memory_ke.Protocol.Lines.{
  IsOneLine, drop-line, drop-text, drop-length, to_string_i64-IsOneLine,
}
use distributed_in_memory_ke.Protocol.Frames.{
  from_chars-size, to_string_u64-line, bulk_body-text, parse_value-line, array_body-items,
}

pub length-serialize_pos : (v : RespValue) → 3 ≤ length (serialize v)
unfolding serialize
length-serialize_pos null = omega arith
length-serialize_pos v = omega lengths

pub size-le : (vs : RespValues) → size vs ≤ length (serialize_items vs)
unfolding serialize
size-le nil = omega arith
size-le (cons v vs) = omega (lengths, size-le vs, length-serialize_pos v)

line_first :
    {text : Bytes} (c : ℕ) (s rest : Bytes)
    → text ≡ c ∷ ((s ++ crlf) ++ rest)
    → text ≡ c ∷ (s ++ (crlf ++ rest))
line_first c s rest e = e ∙ ap (λ l. c ∷ l) (append_assoc s crlf rest)

line_end : (p : ℕ) (s : Bytes) → p + suc (length s) + 2 ≡ p + suc (length (s ++ crlf))
line_end p s = omega (arith, length-append s crlf)

header_first :
    {text : Bytes} (c : ℕ) (header body rest : Bytes)
    → text ≡ c ∷ ((header ++ (crlf ++ body)) ++ rest)
    → text ≡ c ∷ (header ++ (crlf ++ (body ++ rest)))
header_first c header body rest e = e ∙ ap (λ l. c ∷ l) (append_assoc header (crlf ++ body) rest)

module _ (reserve_limit : ℕ) where
  -- What the program can print so that it is read back: one-line strings where no length is written,
  -- `int64_t` values, and arrays that the parser can reserve.
  abbrev mutual
    pub IsFrame : RespValue → Type 0
    IsFrame (simple_string s) = IsOneLine s
    IsFrame (error s) = IsOneLine s
    IsFrame (integer i) = InInt64 i
    IsFrame (bulk_string s) = Unit {0}
    IsFrame (array vs) = (size vs ≤ reserve_limit) × IsFrames vs
    IsFrame null = Unit {0}

    pub IsFrames : RespValues → Type 0
    IsFrames nil = Unit {0}
    IsFrames (cons v vs) = IsFrame v × IsFrames vs

  abbrev Reads : RespValue → Type 0
  Reads v =
      (buffer rest : Bytes) (p f : ℕ)
      → drop p buffer ≡ serialize v ++ rest
      → length buffer < two63
      → length (serialize v) ≤ f
      → parse_internal reserve_limit f buffer p ≡ value v (p + length (serialize v))

  abbrev ReadsItems : RespValues → Type 0
  ReadsItems vs =
      (buffer rest : Bytes) (p f : ℕ)
      → drop p buffer ≡ serialize_items vs ++ rest
      → length buffer < two63
      → length (serialize_items vs) < f
      → parse_items reserve_limit f buffer (size vs) p ≡ value vs (p + length (serialize_items vs))

  simple-Reads : (s : Bytes) → IsOneLine s → Reads (simple_string s)
  unfolding parse_internal serialize
  simple-Reads s ok buffer rest p zero e bound enough = absurd (omega arith)
  simple-Reads s ok buffer rest p (suc f) e bound enough =
      rw
        (parse_value-line reserve_limit _ buffer p b'+' s rest (line_first b'+' s rest e)
          (λ h. omega arith) ok)
        (ap (value (simple_string s)) (line_end p s))

  error-Reads : (s : Bytes) → IsOneLine s → Reads (error s)
  unfolding parse_internal serialize
  error-Reads s ok buffer rest p zero e bound enough = absurd (omega arith)
  error-Reads s ok buffer rest p (suc f) e bound enough =
      rw
        (parse_value-line reserve_limit _ buffer p b'-' s rest (line_first b'-' s rest e)
          (λ h. omega arith) ok)
        (ap (value (error s)) (line_end p s))

  integer-Reads : (i : ℤ) → InInt64 i → Reads (integer i)
  unfolding parse_internal serialize
  integer-Reads i ok buffer rest p zero e bound enough = absurd (omega arith)
  integer-Reads i ok buffer rest p (suc f) e bound enough =
      let s = to_string_i64 i in
      rw
        (parse_value-line reserve_limit _ buffer p b':' s rest (line_first b':' s rest e)
          (λ h. omega arith) (to_string_i64-IsOneLine i))
        (rw (from_chars-to_string_i64 i ok) (ap (value (integer i)) (line_end p s)))

  null-Reads : Reads null
  unfolding parse_internal serialize array_body bulk_body from_chars_i64
  null-Reads buffer rest p zero e bound enough = absurd (omega arith)
  null-Reads buffer rest p (suc f) e bound enough =
      rw
        (parse_value-line reserve_limit _ buffer p b'$' (codes "-1") rest e (λ h. omega arith) refl)
        (ap (value null) (omega arith))

  bulk-Reads : (s : Bytes) → Reads (bulk_string s)
  unfolding parse_internal serialize
  bulk-Reads s buffer rest p zero e bound enough = absurd (omega arith)
  bulk-Reads s buffer rest p (suc f) e bound enough =
      let header = to_string_u64 (length s) in
      let e' = header_first b'$' header (s ++ crlf) rest e in
      let body = rw (append_assoc s crlf rest) at (drop-line buffer p (b'$' ∷ header) _ e') in
      let short = drop-length buffer p b'$' (header ++ (crlf ++ ((s ++ crlf) ++ rest))) e' in
      rw
        (parse_value-line reserve_limit _ buffer p b'$' header _ e' (λ h. omega arith)
          (to_string_u64-line (length s)))
        (rw
          (
            from_chars-size (length s) (omega (lengths, short)),
            bulk_body-text buffer (p + suc (length header) + 2) s rest body (omega (lengths, short))
                bound,
          )
          (ap (value (bulk_string s)) (omega lengths)))

  array-Reads : (vs : RespValues) → size vs ≤ reserve_limit → ReadsItems vs → Reads (array vs)
  unfolding parse_internal serialize
  array-Reads vs ok items buffer rest p zero e bound enough = absurd (omega arith)
  array-Reads vs ok items buffer rest p (suc f) e bound enough =
      let header = to_string_u64 (size vs) in
      let e' = header_first b'*' header (serialize_items vs) rest e in
      let body = drop-line buffer p (b'*' ∷ header) _ e' in
      let whole = drop-length buffer p b'*' (header ++ (crlf ++ (serialize_items vs ++ rest))) e' in
      let fits : size vs < two63 = omega (lengths, whole, size-le vs) in
      let read = items buffer rest (p + suc (length header) + 2) f body bound (omega lengths) in
      rw
        (parse_value-line reserve_limit _ buffer p b'*' header _ e' (λ h. omega arith)
          (to_string_u64-line (size vs)))
        (rw
          (
            from_chars-size (size vs) fits,
            array_body-items reserve_limit (parse_items reserve_limit f buffer)
                (p + suc (length header) + 2) (size vs) vs _ ok fits read,
          )
          (ap (value (array vs)) (omega lengths)))

  nil-ReadsItems : ReadsItems nil
  unfolding parse_internal serialize
  nil-ReadsItems buffer rest p zero e bound enough = absurd (omega arith)
  nil-ReadsItems buffer rest p (suc f) e bound enough = ap (value nil) (omega arith)

  cons-ReadsItems :
      (v : RespValue) (vs : RespValues) → Reads v → ReadsItems vs → ReadsItems (cons v vs)
  unfolding parse_internal serialize
  cons-ReadsItems v vs first more buffer rest p zero e bound enough = absurd (omega arith)
  cons-ReadsItems v vs first more buffer rest p (suc f) e bound enough =
      let e' = e ∙ append_assoc (serialize v) (serialize_items vs) rest in
      let behind = drop-text buffer p (serialize v) _ e' in
      rw
        (
          first buffer _ p f e' bound (omega lengths),
          more buffer rest (p + length (serialize v)) f behind bound
              (omega (lengths, length-serialize_pos v)),
        )
        (ap (value (cons v vs)) (omega lengths))

  mutual
    read_back : (v : RespValue) → IsFrame v → Reads v
    read_back (simple_string s) ok = simple-Reads s ok
    read_back (error s) ok = error-Reads s ok
    read_back (integer i) ok = integer-Reads i ok
    read_back (bulk_string s) ok = bulk-Reads s
    read_back (array vs) ok = array-Reads vs ok.0 (read_items_back vs ok.1)
    read_back null ok = null-Reads

    read_items_back : (vs : RespValues) → IsFrames vs → ReadsItems vs
    read_items_back nil ok = nil-ReadsItems
    read_items_back (cons v vs) ok =
        cons-ReadsItems v vs (read_back v ok.0) (read_items_back vs ok.1)

  -- Wherever the print of a frame stands in a buffer, whatever follows it, the parser returns the
  -- frame and the position right behind the print, given as much recursion as the print has bytes.
  pub parse_internal-serialize :
      (v : RespValue) (buffer rest : Bytes) (p f : ℕ)
      → IsFrame v
      → drop p buffer ≡ serialize v ++ rest
      → length buffer < two63
      → length (serialize v) ≤ f
      → parse_internal reserve_limit f buffer p ≡ value v (p + length (serialize v))
  parse_internal-serialize v buffer rest p f ok = read_back v ok buffer rest p f

  -- The parser reads back what `serialize` prints: on a buffer below 2 ^ 63 bytes that starts with
  -- the print of a frame, whatever follows, `parse` returns the frame and consumes exactly its
  -- print, given a depth of recursion of at least the length of the print. A frame has simple
  -- strings and errors without a line break, integers that are `int64_t`, and arrays for which the
  -- parser can reserve memory.
  pub parse-serialize :
      (v : RespValue) (rest : Bytes) (f : ℕ)
      → IsFrame v
      → length (serialize v ++ rest) < two63
      → length (serialize v) ≤ f
      → parse reserve_limit f (serialize v ++ rest) ≡ value v (length (serialize v))
  unfolding parse
  parse-serialize v rest f ok bound enough =
      read_back v ok (serialize v ++ rest) rest 0 f refl bound enough ∙ ap (value v) (omega arith)
