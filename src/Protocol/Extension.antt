-- ===== src/Protocol/Extension.antt =====
-- The parser (src/protocol/RESP.cpp) on a buffer and on the same buffer with more bytes behind it.
use distributed_in_memory_ke.Prelude.{
  ℕ, zero, suc, ◌+◌, ◌≤◌, ◌<◌, ◌≡◌, refl, true, false, inl, inr, Option, none, some, [], ◌∷◌, ◌++◌,
  arith, Bytes, ℤ, pos, to_u64, two63, length, take, drop, leb, ltb, ◌==◌, Bool-cases, Option-cases,
  get_or, length-append, length-drop, take-append_left, drop-append_left,
}
use distributed_in_memory_ke.Std.Decimal.{from_chars_i64}
use distributed_in_memory_ke.Protocol.Value.{RespValues}
use distributed_in_memory_ke.Protocol.Parser.{
  Parsed, value, incomplete, throws, out_of_fuel, bind, starts_crlf, find_crlf, further, line_at,
  read_line, is_minus_one, rounds, integer_frame, bulk_end, bulk_body, bulk_frame, array_body,
  array_frame, frame, on_line, parse_value, parse_internal, parse_items, parse,
}
use distributed_in_memory_ke.Protocol.Progress.{
  starts_negative, no_negative_bulk, read_line_bounds, read_line-head, from_chars_i64-positive,
  find_crlf-le, line_at-some,
}
use distributed_in_memory_ke.Protocol.Total.{bulk_prefix}

-- A result that more bytes do not change: all but "incomplete" (and a recursion that is too deep).
abbrev pub Extends {ℓ} : {A : Type ℓ} → Parsed A → Parsed A → Type ℓ
Extends (value a q) r = r ≡ value a q
Extends throws r = r ≡ throws
Extends incomplete r = Unit
Extends out_of_fuel r = Unit

Extends-refl {ℓ} : {A : Type ℓ} (r : Parsed A) → Extends r r
Extends-refl (value a q) = refl
Extends-refl throws = refl
Extends-refl incomplete = tt
Extends-refl out_of_fuel = tt

Extends-bind {ℓ κ} :
    {A : Type ℓ} {B : Type κ} (r r' : Parsed A) (f g : A → ℕ → Parsed B)
    → Extends r r'
    → ((a : A) (q : ℕ) → r ≡ value a q → Extends (f a q) (g a q))
    → Extends (bind r f) (bind r' g)
Extends-bind (value a q) r' f g same rest = rw same (rest a q refl)
Extends-bind throws r' f g same rest = rw same refl
Extends-bind incomplete r' f g same rest = tt
Extends-bind out_of_fuel r' f g same rest = tt

pub further-some :
    (o : Option ℕ) (i : ℕ) → further o ≡ some i → (j : ℕ) × (o ≡ some j) × (i ≡ suc j)
further-some none i h = cc
further-some (some j) i h = (j, refl, cc)

pub find_crlf-extends : (s x : Bytes) (i : ℕ) → find_crlf s ≡ some i → find_crlf (s ++ x) ≡ some i
unfolding find_crlf
find_crlf-extends [] x i h = cc
find_crlf-extends (c ∷ []) x i h = cc
find_crlf-extends (c ∷ d ∷ s) x i h = elim (Bool-cases (starts_crlf (c ∷ d ∷ s))) [
  | inl here ↦ rw here (rw here at h)
  | inr later ↦
      let (j, found, e) = further-some _ i (rw later at h) in
      rw (later, find_crlf-extends (d ∷ s) x j found, e)
]

-- A line that is complete stays as it is.
read_line-extends :
    (buffer x : Bytes) (p : ℕ) (line : Bytes) (q : ℕ)
    → p ≤ length buffer
    → read_line buffer p ≡ some (line, q)
    → read_line (buffer ++ x) p ≡ some (line, q)
unfolding read_line
read_line-extends buffer x p line q inside e = elim (Option-cases (find_crlf (drop p buffer))) [
  | inl missing ↦ absurd (cc (rw missing at e))
  | inr (i, found) ↦
      let room = find_crlf-le (drop p buffer) i found in
      let (e₁, e₂) = line_at-some buffer p i line q (rw found at e) in
      rw (drop-append_left p buffer x inside, find_crlf-extends (drop p buffer) x i found, line_at)
        (rw (
          drop-append_left p buffer x inside,
          take-append_left i (drop p buffer) x (omega arith),
          e₁,
          e₂,
        ))
]

get_or-extends :
    (buffer x : Bytes) (p d : ℕ) → p < length buffer → get_or (buffer ++ x) p d ≡ get_or buffer p d
get_or-extends [] x p d h = absurd (omega arith)
get_or-extends (b ∷ buffer) x zero d h = refl
get_or-extends (b ∷ buffer) x (suc p) d h = get_or-extends buffer x p d (omega arith)

bulk_end_exact : (p n : ℕ) → p + 2 < two63 → n < two63 → bulk_end p (pos n) ≡ p + n + 2
unfolding bulk_end to_u64
bulk_end_exact p n h k = omega arith

to_u64_exact : (n : ℕ) → n < two63 → to_u64 (pos n) ≡ n
unfolding to_u64
to_u64_exact n h = omega arith

bulk_body-Extends :
    (buffer x : Bytes) (p n : ℕ)
    → p ≤ length buffer
    → n < two63
    → length buffer + 2 < two63
    → Extends (bulk_body buffer p (pos n)) (bulk_body (buffer ++ x) p (pos n))
unfolding bulk_body
bulk_body-Extends buffer x p n inside fits small =
    let end = bulk_end_exact p n (omega arith) fits in
    let count = to_u64_exact n fits in
    elim (Bool-cases (ltb (length buffer) (p + n + 2))) [
      | inl short ↦ rw (end, count, short) tt
      | inr there ↦
          let longer : ltb (length (buffer ++ x)) (p + n + 2) ≡ false =
            rw (length-append buffer x) (ground arith) in
          let text : take n (drop p (buffer ++ x)) ≡ take n (drop p buffer) =
            rw (drop-append_left p buffer x inside)
              (take-append_left n (drop p buffer) x (rw (length-drop p buffer) (ground arith))) in
          rw (end, count, there, longer, text) refl
    ]

bulk_frame-Extends :
    (buffer x : Bytes) (p : ℕ) (content : Bytes)
    → p ≤ length buffer
    → length buffer + 2 < two63
    → starts_negative (b'$' ∷ content) ≡ false
    → Extends
        (bulk_frame buffer p (from_chars_i64 content))
        (bulk_frame (buffer ++ x) p (from_chars_i64 content))
bulk_frame-Extends buffer x p content inside small clean =
    elim (Option-cases (from_chars_i64 content)) [
      | inl failed ↦ rw failed tt
      | inr ((len, tail), read) ↦
          let (n, e, fits) = from_chars_i64-positive content tail len clean read in
          rw (read, e) (bulk_body-Extends buffer x p n inside fits small)
    ]

module _ (reserve_limit : ℕ) (items items' : ℕ → ℕ → Parsed RespValues) (p : ℕ)
    (loop : (n : ℕ) → Extends (items n p) (items' n p)) where
  array_body-Extends :
      (count : ℤ)
      → Extends (array_body reserve_limit items p count) (array_body reserve_limit items' p count)
  unfolding array_body
  array_body-Extends count = elim (Bool-cases (is_minus_one count)) [
    | inl empty ↦ rw empty refl
    | inr other ↦ elim (Bool-cases (ltb reserve_limit (to_u64 count))) [
      | inl huge ↦ rw (other, huge) refl
      | inr fine ↦
          rw (other, fine)
            (Extends-bind (items (rounds count) p) (items' (rounds count) p) _ _
              (loop (rounds count)) (λ vs q e. refl))
    ]
  ]

  array_frame-Extends :
      (r : Option (ℤ × Bytes))
      → Extends (array_frame reserve_limit items p r) (array_frame reserve_limit items' p r)
  array_frame-Extends none = tt
  array_frame-Extends (some (count, _)) = array_body-Extends count

module _ (reserve_limit : ℕ) (buffer x : Bytes) (small : length buffer + 2 < two63)
    (clean : no_negative_bulk buffer ≡ true) where
  module _ (items items' : ℕ → ℕ → Parsed RespValues) where
    frame-Extends :
        (prefix q : ℕ) (content : Bytes)
        → q ≤ length buffer
        → starts_negative (prefix ∷ content) ≡ false
        → ((n : ℕ) → Extends (items n q) (items' n q))
        → Extends
            (frame reserve_limit items buffer prefix content q)
            (frame reserve_limit items' (buffer ++ x) prefix content q)
    frame-Extends prefix q content inside plain loop = elim (Bool-cases (prefix == b'+')) [
      | inl is ↦ rw is refl
      | inr no1 ↦ rw no1 (elim (Bool-cases (prefix == b'-')) [
        | inl is ↦ rw is refl
        | inr no2 ↦ rw no2 (elim (Bool-cases (prefix == b':')) [
          | inl is ↦ rw is (Extends-refl (integer_frame q (from_chars_i64 content)))
          | inr no3 ↦ rw no3 (elim (Bool-cases (prefix == b'$')) [
            | inl is ↦ rw is (
                bulk_frame-Extends buffer x q content inside small
                  (bulk_prefix prefix content is plain))
            | inr no4 ↦ rw no4 (elim (Bool-cases (prefix == b'*')) [
              | inl is ↦
                  rw is
                    (array_frame-Extends reserve_limit items items' q loop (from_chars_i64 content))
              | inr no5 ↦ rw no5 tt
            ])
          ])
        ])
      ])
    ]

    on_line-Extends :
        (line : Bytes) (q p : ℕ)
        → p < length buffer
        → read_line buffer p ≡ some (line, q)
        → ((n q : ℕ) → q ≤ length buffer → Extends (items n q) (items' n q))
        → Extends
            (on_line reserve_limit items buffer (get_or buffer p 0) (some (line, q)))
            (on_line reserve_limit items' (buffer ++ x) (get_or buffer p 0) (some (line, q)))
    on_line-Extends [] q p before found loop = tt
    on_line-Extends (c ∷ content) q p before found loop =
        let (at_q, inside, plain) =
          read_line_bounds buffer p (c ∷ content) q (omega arith) clean found in
        rw (read_line-head buffer p c content q found)
          (frame-Extends c q content inside plain (λ n. loop n q inside))

    parse_value-Extends :
        (p : ℕ)
        → ((n q : ℕ) → q ≤ length buffer → Extends (items n q) (items' n q))
        → Extends
            (parse_value reserve_limit items buffer p)
            (parse_value reserve_limit items' (buffer ++ x) p)
    unfolding parse_value
    parse_value-Extends p loop = elim (Bool-cases (leb (length buffer) p)) [
      | inl past ↦ rw past tt
      | inr before ↦
          let inside : p < length buffer = ground arith in
          let longer : leb (length (buffer ++ x)) p ≡ false =
            rw (length-append buffer x) (ground arith) in
          rw (before, longer, get_or-extends buffer x p 0 inside)
            (elim (Option-cases (read_line buffer p)) [
              | inl missing ↦ rw missing tt
              | inr ((line, q), found) ↦
                  rw (found, read_line-extends buffer x p line q (omega arith) found)
                    (on_line-Extends line q p inside found loop)
            ])
    ]

  mutual
    unfolding parse_internal

    internal-Extends :
        (f p : ℕ)
        → Extends
            (parse_internal reserve_limit f buffer p)
            (parse_internal reserve_limit f (buffer ++ x) p)
    internal-Extends zero p = tt
    internal-Extends (suc f) p =
        parse_value-Extends (parse_items reserve_limit f buffer)
          (parse_items reserve_limit f (buffer ++ x)) p (λ n q inside. items-Extends f n q)

    items-Extends :
        (f n p : ℕ)
        → Extends
            (parse_items reserve_limit f buffer n p)
            (parse_items reserve_limit f (buffer ++ x) n p)
    items-Extends zero n p = tt
    items-Extends (suc f) zero p = refl
    items-Extends (suc f) (suc n) p =
        Extends-bind _ _ _ _ (internal-Extends f p)
          (λ v q e. Extends-bind _ _ _ _ (items-Extends f n q) (λ vs r e'. refl))

  -- More bytes behind a buffer change no answer that the parser has given: where it returned a
  -- value or threw, it does the same on the longer buffer. The buffer is below 2 ^ 63 - 2 bytes and
  -- has no minus sign behind a `$`.
  pub parse-Extends :
      (f : ℕ) → Extends (parse reserve_limit f buffer) (parse reserve_limit f (buffer ++ x))
  unfolding parse
  parse-Extends f = internal-Extends f 0
