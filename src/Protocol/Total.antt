-- ===== src/Protocol/Total.antt =====
-- Termination of the parser (src/protocol/RESP.cpp).
use distributed_in_memory_ke.Prelude.{
  ℕ, zero, suc, ◌+◌, ◌-◌, ◌≤◌, ◌<◌, ◌≡◌, refl, true, false, inl, inr, some, [], ◌∷◌, arith, Bytes,
  two63, length, leb, ◌==◌, Bool-cases, Option-cases, get_or,
}
use distributed_in_memory_ke.Std.Decimal.{from_chars_i64}
use distributed_in_memory_ke.Protocol.Value.{RespValues}
use distributed_in_memory_ke.Protocol.Parser.{
  Parsed, value, incomplete, throws, out_of_fuel, read_line, frame, on_line, parse_value,
  parse_internal, parse_items, parse,
}
use distributed_in_memory_ke.Protocol.Progress.{
  starts_negative, no_negative_bulk, EndsWithin, EndsWithin-bind, read_line_bounds,
  bulk_frame-EndsWithin, integer_frame-EndsWithin, array_frame-EndsWithin, read_line-head,
}

EndsWithin-weaken {ℓ} :
    {A : Type ℓ} (lo' lo hi : ℕ) (r : Parsed A)
    → lo' ≤ lo
    → EndsWithin lo hi r
    → EndsWithin lo' hi r
EndsWithin-weaken lo' lo hi (value a q) h k = omega arith
EndsWithin-weaken lo' lo hi incomplete h k = tt
EndsWithin-weaken lo' lo hi throws h k = tt
EndsWithin-weaken lo' lo hi out_of_fuel h k = k

pub bulk_prefix :
    (prefix : ℕ) (content : Bytes)
    → (prefix == b'$') ≡ true
    → starts_negative (prefix ∷ content) ≡ false
    → starts_negative (b'$' ∷ content) ≡ false
bulk_prefix prefix [] is plain = refl
bulk_prefix prefix (c ∷ content) is plain = ground arith

module _ (reserve_limit : ℕ) (buffer : Bytes) (small : length buffer + 2 < two63)
    (clean : no_negative_bulk buffer ≡ true) where
  module _ (items : ℕ → ℕ → Parsed RespValues) where
    frame-EndsWithin :
        (prefix q : ℕ) (content : Bytes)
        → q ≤ length buffer
        → starts_negative (prefix ∷ content) ≡ false
        → ((n : ℕ) → EndsWithin q (length buffer) (items n q))
        → EndsWithin q (length buffer) (frame reserve_limit items buffer prefix content q)
    frame-EndsWithin prefix q content inside plain loop = elim (Bool-cases (prefix == b'+')) [
      | inl is ↦ rw is (omega arith, inside)
      | inr no1 ↦ rw no1 (elim (Bool-cases (prefix == b'-')) [
        | inl is ↦ rw is (omega arith, inside)
        | inr no2 ↦ rw no2 (elim (Bool-cases (prefix == b':')) [
          | inl is ↦
              rw is (integer_frame-EndsWithin (length buffer) q (from_chars_i64 content) inside)
          | inr no3 ↦ rw no3 (elim (Bool-cases (prefix == b'$')) [
            | inl is ↦ rw is (
                bulk_frame-EndsWithin buffer q content inside small
                  (bulk_prefix prefix content is plain))
            | inr no4 ↦ rw no4 (elim (Bool-cases (prefix == b'*')) [
              | inl is ↦ rw is (
                  array_frame-EndsWithin reserve_limit items (length buffer) q inside loop
                    (from_chars_i64 content))
              | inr no5 ↦ rw no5 tt
            ])
          ])
        ])
      ])
    ]

    on_line-EndsWithin :
        (line : Bytes) (q p : ℕ)
        → p < length buffer
        → read_line buffer p ≡ some (line, q)
        → ((n q : ℕ) → p + 3 ≤ q → q ≤ length buffer → EndsWithin q (length buffer) (items n q))
        → EndsWithin
            (suc p)
            (length buffer)
            (on_line reserve_limit items buffer (get_or buffer p 0) (some (line, q)))
    on_line-EndsWithin [] q p before found loop = tt
    on_line-EndsWithin (c ∷ content) q p before found loop =
        let (at_q, inside, plain) =
          read_line_bounds buffer p (c ∷ content) q (omega arith) clean found in
        rw (read_line-head buffer p c content q found) (
          EndsWithin-weaken (suc p) q (length buffer) _ (omega arith)
            (frame-EndsWithin c q content inside plain (λ n. loop n q (omega arith) inside)))

    -- One call of the parser, whose loop over elements is `items`.
    parse_value-EndsWithin :
        (p : ℕ)
        → ((n q : ℕ) → p + 3 ≤ q → q ≤ length buffer → EndsWithin q (length buffer) (items n q))
        → EndsWithin (suc p) (length buffer) (parse_value reserve_limit items buffer p)
    unfolding parse_value
    parse_value-EndsWithin p loop = elim (Bool-cases (leb (length buffer) p)) [
      | inl past ↦ rw past tt
      | inr before ↦ rw before (elim (Option-cases (read_line buffer p)) [
        | inl missing ↦ rw missing tt
        | inr ((line, q), found) ↦ rw found (on_line-EndsWithin line q p (ground arith) found loop)
      ])
    ]

  -- The depth of recursion that is needed: one more than the bytes that are left.
  mutual
    unfolding parse_internal

    pub internal-EndsWithin :
        (f p : ℕ)
        → length buffer - p < f
        → EndsWithin (suc p) (length buffer) (parse_internal reserve_limit f buffer p)
    internal-EndsWithin zero p enough = absurd (omega arith)
    internal-EndsWithin (suc f) p enough =
        parse_value-EndsWithin (parse_items reserve_limit f buffer) p
          (λ n q ahead inside. items-EndsWithin f n q inside (omega arith))

    items-EndsWithin :
        (f n p : ℕ)
        → p ≤ length buffer
        → length buffer - p + 1 < f
        → EndsWithin p (length buffer) (parse_items reserve_limit f buffer n p)
    items-EndsWithin zero n p inside enough = absurd (omega arith)
    items-EndsWithin (suc f) zero p inside enough = (omega arith, inside)
    items-EndsWithin (suc f) (suc n) p inside enough =
        EndsWithin-bind p (suc p) (length buffer) _ _ (internal-EndsWithin f p (omega arith))
          (λ v q lo hi.
            EndsWithin-bind p q (length buffer) _ _ (items-EndsWithin f n q hi (omega arith))
              (λ vs r lo' hi'. (omega arith, hi')))

  -- With a depth of recursion above the length of the buffer the parser ends, on every buffer below
  -- 2 ^ 63 - 2 bytes in which no `$` is followed by a minus sign: it returns a value that consumes
  -- at least one byte and at most all of them, or reports that the frame is incomplete or wrong, or
  -- throws on a count that cannot be reserved.
  pub parse-EndsWithin :
      (f : ℕ) → length buffer < f → EndsWithin 1 (length buffer) (parse reserve_limit f buffer)
  unfolding parse
  parse-EndsWithin f enough = internal-EndsWithin f 0 (omega arith)
