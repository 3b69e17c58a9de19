-- ===== src/Protocol/Closed.antt =====
-- What the parser (src/protocol/RESP.cpp) returns is a frame.
use distributed_in_memory_ke.Prelude.{
  ℕ, zero, suc, ◌+◌, ◌≤◌, ◌<◌, ◌≡◌, ap, refl, false, inl, inr, Option, none, some, [], ◌∷◌, arith,
  Bytes, ℤ, pos, negsuc, InInt64, to_u64, two63, length, take, drop, leb, ltb, ltb→lt, ◌==◌,
  Bool-cases, Option-cases, get_or,
}
use distributed_in_memory_ke.Std.Decimal.{
  from_chars_i64, scan_number, fits_below, as_positive, as_negative, negate,
}
use distributed_in_memory_ke.Protocol.Value.{RespValues, size}
use distributed_in_memory_ke.Protocol.Parser.{
  Parsed, value, incomplete, throws, out_of_fuel, bind, starts_crlf, find_crlf, read_line,
  is_minus_one, rounds, integer_frame, bulk_end, bulk_body, bulk_frame, array_body, array_frame,
  frame, on_line, parse_value, parse_internal, parse_items, parse,
}
use distributed_in_memory_ke.Protocol.Lines.{IsOneLine, IsOneLine-tail}
use distributed_in_memory_ke.Protocol.Progress.{line_at-some}
use distributed_in_memory_ke.Protocol.Extension.{further-some}
use distributed_in_memory_ke.Protocol.RoundTrip.{IsFrame, IsFrames}

-- A value that is returned has a property.
abbrev pub Yields {ℓ κ} : {A : Type ℓ} → (A → Type κ) → Parsed A → Type κ
Yields P (value a q) = P a
Yields P _ = Unit

Yields-bind {ℓ κ μ ν} :
    {A : Type ℓ} {B : Type κ} (P : A → Type μ) (Q : B → Type ν) (r : Parsed A)
    (f : A → ℕ → Parsed B)
    → Yields P r
    → ((a : A) (q : ℕ) → P a → Yields Q (f a q))
    → Yields Q (bind r f)
Yields-bind P Q (value a q) f h k = k a q h
Yields-bind P Q incomplete f h k = tt
Yields-bind P Q throws f h k = tt
Yields-bind P Q out_of_fuel f h k = tt

continued :
    (c d j : ℕ) (s : Bytes)
    → starts_crlf (c ∷ d ∷ s) ≡ false
    → IsOneLine (take j (d ∷ s))
    → IsOneLine (c ∷ take j (d ∷ s))
unfolding find_crlf
continued c d zero s later h = refl
continued c d (suc k) s later h = rw (later, h)

-- The text before the first line break.
take-IsOneLine : (s : Bytes) (i : ℕ) → find_crlf s ≡ some i → IsOneLine (take i s)
unfolding find_crlf
take-IsOneLine [] i h = cc
take-IsOneLine (c ∷ []) i h = cc
take-IsOneLine (c ∷ d ∷ s) i h = elim (Bool-cases (starts_crlf (c ∷ d ∷ s))) [
  | inl here ↦ let e : i ≡ 0 = cc (rw here at h) in rw e refl
  | inr later ↦
      let (j, found, e) = further-some _ i (rw later at h) in
      rw e (continued c d j s later (take-IsOneLine (d ∷ s) j found))
]

read_line-IsOneLine :
    (buffer : Bytes) (p : ℕ) (line : Bytes) (q : ℕ)
    → read_line buffer p ≡ some (line, q)
    → IsOneLine line
unfolding read_line
read_line-IsOneLine buffer p line q e = elim (Option-cases (find_crlf (drop p buffer))) [
  | inl missing ↦ absurd (cc (rw missing at e))
  | inr (i, found) ↦
      let (e₁, e₂) = line_at-some buffer p i line q (rw found at e) in
      rw (← e₁) (take-IsOneLine (drop p buffer) i found)
]

negate-InInt64 : (n : ℕ) → n < two63 + 1 → InInt64 (negate n)
negate-InInt64 zero h = omega arith
negate-InInt64 (suc n) h = omega arith

as_positive-InInt64 :
    (o : Option (ℕ × Bytes)) (val : ℤ) (tail : Bytes)
    → as_positive (fits_below two63 o) ≡ some (val, tail)
    → InInt64 val
as_positive-InInt64 none val tail e = cc
as_positive-InInt64 (some (n, rest)) val tail e = elim (Bool-cases (ltb n two63)) [
  | inl fits ↦
      let e' : ◌≡◌ {A = Option (ℤ × Bytes)} (some (pos n, rest)) (some (val, tail)) =
        rw fits at e in
      let same : pos n ≡ val = cc in rw (← same) (ltb→lt n two63 fits)
  | inr over ↦ absurd (cc (rw over at e))
]

as_negative-InInt64 :
    (o : Option (ℕ × Bytes)) (val : ℤ) (tail : Bytes)
    → as_negative (fits_below (two63 + 1) o) ≡ some (val, tail)
    → InInt64 val
as_negative-InInt64 none val tail e = cc
as_negative-InInt64 (some (n, rest)) val tail e = elim (Bool-cases (ltb n (two63 + 1))) [
  | inl fits ↦
      let e' : ◌≡◌ {A = Option (ℤ × Bytes)} (some (negate n, rest)) (some (val, tail)) =
        rw fits at e in
      let same : negate n ≡ val = cc in rw (← same) (negate-InInt64 n (ltb→lt n (two63 + 1) fits))
  | inr over ↦ absurd (cc (rw over at e))
]

from_chars_i64-InInt64 :
    (s : Bytes) (val : ℤ) (tail : Bytes) → from_chars_i64 s ≡ some (val, tail) → InInt64 val
unfolding from_chars_i64
from_chars_i64-InInt64 [] val tail e = cc
from_chars_i64-InInt64 (c ∷ s) val tail e = elim (Bool-cases (c == b'-')) [
  | inl minus ↦ as_negative-InInt64 (scan_number s) val tail (rw minus at e)
  | inr plus ↦ as_positive-InInt64 (scan_number (c ∷ s)) val tail (rw plus at e)
]

module _ (reserve_limit : ℕ) where
  integer_frame-Yields :
      (s : Bytes) (p : ℕ) → Yields (IsFrame reserve_limit) (integer_frame p (from_chars_i64 s))
  integer_frame-Yields s p = elim (Option-cases (from_chars_i64 s)) [
    | inl failed ↦ rw failed tt
    | inr ((val, tail), read) ↦ rw read (from_chars_i64-InInt64 s val tail read)
  ]

  bulk_frame-Yields :
      (buffer : Bytes) (p : ℕ) (r : Option (ℤ × Bytes))
      → Yields (IsFrame reserve_limit) (bulk_frame buffer p r)
  unfolding bulk_body
  bulk_frame-Yields buffer p none = tt
  bulk_frame-Yields buffer p (some (len, tail)) = elim (Bool-cases (is_minus_one len)) [
    | inl empty ↦ rw empty tt
    | inr other ↦ elim (Bool-cases (ltb (length buffer) (bulk_end p len))) [
      | inl short ↦ rw (other, short) tt
      | inr there ↦ rw (other, there) tt
    ]
  ]

  -- What the loop over `n` elements returns.
  abbrev AreItems : ℕ → RespValues → Type 0
  AreItems n vs = (size vs ≡ n) × IsFrames reserve_limit vs

  rounds-le :
      (count : ℤ)
      → InInt64 count
      → ltb reserve_limit (to_u64 count) ≡ false
      → rounds count ≤ reserve_limit
  unfolding to_u64
  rounds-le (pos n) small fine = ground arith
  rounds-le (negsuc n) small fine = omega arith

  module _ (items : ℕ → ℕ → Parsed RespValues)
      (loop : (n q : ℕ) → Yields (AreItems n) (items n q)) where
    array_frame-Yields :
        (s : Bytes) (p : ℕ)
        → Yields (IsFrame reserve_limit) (array_frame reserve_limit items p (from_chars_i64 s))
    unfolding array_body
    array_frame-Yields s p = elim (Option-cases (from_chars_i64 s)) [
      | inl failed ↦ rw failed tt
      | inr ((count, tail), read) ↦ rw read (elim (Bool-cases (is_minus_one count)) [
        | inl empty ↦ rw empty tt
        | inr other ↦ elim (Bool-cases (ltb reserve_limit (to_u64 count))) [
          | inl huge ↦ rw (other, huge) tt
          | inr fine ↦
              rw (other, fine)
                (Yields-bind (AreItems (rounds count)) (IsFrame reserve_limit)
                  (items (rounds count) p) _ (loop (rounds count) p)
                  (λ vs q h. (
                    rw h.0 (rounds-le count (from_chars_i64-InInt64 s count tail read) fine),
                    h.1,
                  )))
        ]
      ])
    ]

    frame-Yields :
        (buffer : Bytes) (prefix q : ℕ) (content : Bytes)
        → IsOneLine content
        → Yields (IsFrame reserve_limit) (frame reserve_limit items buffer prefix content q)
    frame-Yields buffer prefix q content line = elim (Bool-cases (prefix == b'+')) [
      | inl is ↦ rw is line
      | inr no1 ↦ rw no1 (elim (Bool-cases (prefix == b'-')) [
        | inl is ↦ rw is line
        | inr no2 ↦ rw no2 (elim (Bool-cases (prefix == b':')) [
          | inl is ↦ rw is (integer_frame-Yields content q)
          | inr no3 ↦ rw no3 (elim (Bool-cases (prefix == b'$')) [
            | inl is ↦ rw is (bulk_frame-Yields buffer q (from_chars_i64 content))
            | inr no4 ↦ rw no4 (elim (Bool-cases (prefix == b'*')) [
              | inl is ↦ rw is (array_frame-Yields content q)
              | inr no5 ↦ rw no5 tt
            ])
          ])
        ])
      ])
    ]

    on_line-Yields :
        (buffer : Bytes) (prefix : ℕ) (line : Bytes) (q : ℕ)
        → IsOneLine line
        → Yields
            (IsFrame reserve_limit)
            (on_line reserve_limit items buffer prefix (some (line, q)))
    on_line-Yields buffer prefix [] q line = tt
    on_line-Yields buffer prefix (c ∷ content) q line =
        frame-Yields buffer prefix q content (IsOneLine-tail c content line).1

    parse_value-Yields :
        (buffer : Bytes) (p : ℕ)
        → Yields (IsFrame reserve_limit) (parse_value reserve_limit items buffer p)
    unfolding parse_value
    parse_value-Yields buffer p = elim (Bool-cases (leb (length buffer) p)) [
      | inl past ↦ rw past tt
      | inr before ↦ rw before (elim (Option-cases (read_line buffer p)) [
        | inl missing ↦ rw missing tt
        | inr ((line, q), found) ↦ rw found (
            on_line-Yields buffer (get_or buffer p 0) line q
              (read_line-IsOneLine buffer p line q found))
      ])
    ]

  mutual
    unfolding parse_internal

    internal-Yields :
        (f : ℕ) (buffer : Bytes) (p : ℕ)
        → Yields (IsFrame reserve_limit) (parse_internal reserve_limit f buffer p)
    internal-Yields zero buffer p = tt
    internal-Yields (suc f) buffer p =
        parse_value-Yields (parse_items reserve_limit f buffer) (λ n q. items-Yields f buffer n q)
          buffer p

    items-Yields :
        (f : ℕ) (buffer : Bytes) (n p : ℕ)
        → Yields (AreItems n) (parse_items reserve_limit f buffer n p)
    items-Yields zero buffer n p = tt
    items-Yields (suc f) buffer zero p = (refl, tt)
    items-Yields (suc f) buffer (suc n) p =
        Yields-bind (IsFrame reserve_limit) (AreItems (suc n)) _ _ (internal-Yields f buffer p)
          (λ v q ok.
            Yields-bind (AreItems n) (AreItems (suc n)) _ _ (items-Yields f buffer n q)
              (λ vs r oks. (ap suc oks.0, (ok, oks.1))))

  -- Whatever the buffer, a value that the parser returns is a frame: its strings and errors are of
  -- one line, its integers are `int64_t`, and its arrays have no more elements than can be
  -- reserved.
  pub parse-IsFrame :
      (f : ℕ) (buffer : Bytes) → Yields (IsFrame reserve_limit) (parse reserve_limit f buffer)
  unfolding parse
  parse-IsFrame f buffer = internal-Yields f buffer 0
