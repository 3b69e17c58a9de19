-- ===== src/Server/Chunks.antt =====
-- How the loop of src/server/Server.cpp over the frames of a buffer depends on the way in which the
-- stream is cut.
use distributed_in_memory_ke.Prelude.{
  ℕ, zero, suc, ◌+◌, ◌≤◌, ◌<◌, ◌≡◌, ◌∙◌, sym, refl, true, inl, inr, ◌⊎◌, ◌++◌, [], ◌∷◌, arith,
  Bytes, two63, length, drop, length-append, length-drop, drop-append_left, drop-drop, append-nil,
  append_assoc, List,
}
use distributed_in_memory_ke.Protocol.Value.{RespValue}
use distributed_in_memory_ke.Protocol.Parser.{Parsed, value, incomplete, throws, out_of_fuel, parse}
use distributed_in_memory_ke.Protocol.Progress.{no_negative_bulk, no_negative_bulk-drop, EndsWithin}
use distributed_in_memory_ke.Protocol.Total.{parse-EndsWithin}
use distributed_in_memory_ke.Protocol.Extension.{parse-Extends}
use distributed_in_memory_ke.Server.FrameLoop.{
  Next, go, stop, Drained, waiting, stopped, crashed, too_deep, too_long, drain, settle, resume,
  on_drained, receive_all, joined,
}

-- A buffer on which the parser ends: short enough for `size_t` and for the depth of the recursion,
-- and with no minus sign behind a `$`.
abbrev pub IsOrderly : ℕ → Bytes → Type 0
IsOrderly depth buffer =
    (length buffer + 2 < two63) × (length buffer < depth) × (no_negative_bulk buffer ≡ true)

IsOrderly-drop :
    (depth n : ℕ) (buffer : Bytes) → IsOrderly depth buffer → IsOrderly depth (drop n buffer)
IsOrderly-drop depth n buffer h = (
  omega (arith, length-drop n buffer),
  omega (arith, length-drop n buffer),
  no_negative_bulk-drop n buffer h.2,
)

no_negative_bulk-append :
    (s x : Bytes) → no_negative_bulk (s ++ x) ≡ true → no_negative_bulk s ≡ true
unfolding no_negative_bulk
no_negative_bulk-append [] x h = refl
no_negative_bulk-append (c ∷ []) x h = refl
no_negative_bulk-append (c ∷ d ∷ s) x h = ground (arith, no_negative_bulk-append (d ∷ s) x)

pub IsOrderly-append :
    (depth : ℕ) (buffer x : Bytes) → IsOrderly depth (buffer ++ x) → IsOrderly depth buffer
IsOrderly-append depth buffer x h = (
  omega (arith, length-append buffer x),
  omega (arith, length-append buffer x),
  no_negative_bulk-append buffer x h.2,
)

-- What the parser does with such a buffer.
abbrev Parses : Bytes → Parsed RespValue → Type 0
Parses buffer r =
    (r ≡ incomplete)
    ⊎ (r ≡ throws)
    ⊎ ((v : RespValue) × (q : ℕ) × (r ≡ value v q) × (1 ≤ q) × (q ≤ length buffer))

EndsWithin-Parses :
    (buffer : Bytes) (r : Parsed RespValue) → EndsWithin 1 (length buffer) r → Parses buffer r
EndsWithin-Parses buffer (value v q) h = inr (inr (v, q, refl, h.0, h.1))
EndsWithin-Parses buffer incomplete h = inl refl
EndsWithin-Parses buffer throws h = inr (inl refl)
EndsWithin-Parses buffer out_of_fuel h = absurd h

pub parse-Parses :
    (reserve_limit depth : ℕ) (buffer : Bytes)
    → IsOrderly depth buffer
    → Parses buffer (parse reserve_limit depth buffer)
parse-Parses reserve_limit depth buffer h =
    EndsWithin-Parses buffer _ (parse-EndsWithin reserve_limit buffer h.0 h.2 depth h.1)

pub Next-cases {ℓ κ} :
    {S : Type ℓ} {E : Type κ} (n : Next S E) → ((s : S) × (n ≡ go s)) ⊎ ((e : E) × (n ≡ stop e))
Next-cases (go s) = inl (s, refl)
Next-cases (stop e) = inr (e, refl)

module _ {ℓ κ} {S : Type ℓ} {E : Type κ} (reserve_limit depth : ℕ)
    (handle : RespValue → S → Next S E) where
  abbrev run : ℕ → Bytes → S → Drained S E
  run = drain reserve_limit depth handle

  -- Rounds enough are rounds enough.
  drain-rounds :
      (r r' : ℕ) (buffer : Bytes) (s : S)
      → IsOrderly depth buffer
      → length buffer < r
      → length buffer < r'
      → run r buffer s ≡ run r' buffer s
  unfolding drain
  drain-rounds zero r' buffer s ok enough enough' = absurd (omega arith)
  drain-rounds (suc r) zero buffer s ok enough enough' = absurd (omega arith)
  drain-rounds (suc r) (suc r') buffer s ok enough enough' =
      elim (parse-Parses reserve_limit depth buffer ok) [
        | inl none' ↦ rw (none', drain)
        | inr (inl broken) ↦ rw (broken, drain)
        | inr (inr (v, q, parsed, some', inside)) ↦ elim (Next-cases (handle v s)) [
          | inl (s', goes) ↦
              rw (parsed, drain)
                (rw (goes, drain)
                  (drain-rounds r r' (drop q buffer) s' (IsOrderly-drop depth q buffer ok)
                    (omega (arith, length-drop q buffer)) (omega (arith, length-drop q buffer))))
          | inr (e, stops) ↦ rw (parsed, drain) (rw (stops, drain))
        ]
      ]

  -- The loop on a longer buffer is the loop on the shorter one, and then on the rest.
  pub drain-append :
      (r : ℕ) (buffer x : Bytes) (s : S)
      → IsOrderly depth (buffer ++ x)
      → length buffer < r
      → settle reserve_limit depth handle (buffer ++ x) s
        ≡ resume reserve_limit depth handle x (run r buffer s)
  unfolding drain
  drain-append zero buffer x s ok enough = absurd (omega arith)
  drain-append (suc r) buffer x s ok enough =
      let short = IsOrderly-append depth buffer x ok in
      let grown = parse-Extends reserve_limit buffer x short.0 short.2 depth in
      elim (parse-Parses reserve_limit depth buffer short) [
        | inl none' ↦ rw (none', drain) refl
        | inr (inl broken) ↦
            let broken' : parse reserve_limit depth (buffer ++ x) ≡ throws = rw broken at grown in
            rw (broken, broken', drain) refl
        | inr (inr (v, q, parsed, some', inside)) ↦
            let parsed' : parse reserve_limit depth (buffer ++ x) ≡ value v q =
              rw parsed at grown in
            elim (Next-cases (handle v s)) [
              | inl (s', goes) ↦
                  let ok' : IsOrderly depth (drop q buffer ++ x) =
                    rw (← drop-append_left q buffer x inside)
                      (IsOrderly-drop depth q (buffer ++ x) ok) in
                  rw (parsed, parsed', drain)
                    (rw (goes, drain)
                      (rw (drop-append_left q buffer x inside) (
                        drain-rounds (length (buffer ++ x)) (suc (length (drop q buffer ++ x)))
                          (drop q buffer ++ x) s' ok'
                          (omega (
                            arith,
                            length-append (drop q buffer) x,
                            length-append buffer x,
                            length-drop q buffer,
                          ))
                          (omega arith)
                        ∙ drain-append r (drop q buffer) x s' ok'
                            (omega (arith, length-drop q buffer)))))
              | inr (e, stops) ↦ rw (parsed, parsed', drain) (rw (stops, drain) refl)
            ]
      ]

  -- What is left in the buffer is the end of it.
  drain-rest :
      (r : ℕ) (buffer rest : Bytes) (s s' : S)
      → IsOrderly depth buffer
      → run r buffer s ≡ waiting s' rest
      → (k : ℕ) × (k ≤ length buffer) × (rest ≡ drop k buffer)
  unfolding drain
  drain-rest zero buffer rest s s' ok h = cc
  drain-rest (suc r) buffer rest s s' ok h = elim (parse-Parses reserve_limit depth buffer ok) [
    | inl none' ↦ (0, omega arith, cc (rw (none', drain) at h))
    | inr (inl broken) ↦ absurd (cc (rw (broken, drain) at h))
    | inr (inr (v, q, parsed, some', inside)) ↦ elim (Next-cases (handle v s)) [
      | inl (t, goes) ↦
          let h' : run r (drop q buffer) t ≡ waiting s' rest =
            rw (goes, drain) at (rw (parsed, drain) at h) in
          let (k, le, e) =
            drain-rest r (drop q buffer) rest t s' (IsOrderly-drop depth q buffer ok) h' in
          (q + k, omega (arith, length-drop q buffer), e ∙ drop-drop q k buffer)
      | inr (e, stops) ↦ absurd (cc (rw (stops, drain) at (rw (parsed, drain) at h)))
    ]
  ]

  IsOrderly-rest :
      (buffer x rest : Bytes) (s s' : S) (r : ℕ)
      → IsOrderly depth (buffer ++ x)
      → run r buffer s ≡ waiting s' rest
      → IsOrderly depth (rest ++ x)
  IsOrderly-rest buffer x rest s s' r ok h =
      let (k, le, e) = drain-rest r buffer rest s s' (IsOrderly-append depth buffer x ok) h in
      rw (e, ← drop-append_left k buffer x le) (IsOrderly-drop depth k (buffer ++ x) ok)

  Drained-cases :
      (d : Drained S E)
      → ((s : S) × (rest : Bytes) × (d ≡ waiting s rest))
        ⊎ ((continue : Bytes → S → Drained S E)
            → on_drained reserve_limit depth handle continue d ≡ d)
          × ((x : Bytes) → resume reserve_limit depth handle x d ≡ d)
  Drained-cases (waiting s rest) = inl (s, rest, refl)
  Drained-cases (stopped e) = inr (λ continue. refl, λ x. refl)
  Drained-cases (crashed s) = inr (λ continue. refl, λ x. refl)
  Drained-cases too_deep = inr (λ continue. refl, λ x. refl)
  Drained-cases too_long = inr (λ continue. refl, λ x. refl)

  ended :
      (d : Drained S E)
      → on_drained reserve_limit depth handle (receive_all reserve_limit depth handle []) d ≡ d
  unfolding receive_all
  ended (waiting s rest) = refl
  ended (stopped e) = refl
  ended (crashed s) = refl
  ended too_deep = refl
  ended too_long = refl

  -- On an orderly stream the loop over the chunks does what the loop over the whole stream does.
  pub receive_all-joined :
      (chunk : Bytes) (chunks : List Bytes) (buffer : Bytes) (s : S)
      → IsOrderly depth (buffer ++ (chunk ++ joined chunks))
      → receive_all reserve_limit depth handle (chunk ∷ chunks) buffer s
        ≡ settle reserve_limit depth handle (buffer ++ (chunk ++ joined chunks)) s
  unfolding receive_all
  receive_all-joined chunk [] buffer s ok =
      rw (append-nil chunk) (ended (settle reserve_limit depth handle (buffer ++ chunk) s))
  receive_all-joined chunk (next ∷ chunks) buffer s ok =
      let more = next ∷ chunks in
      let first = settle reserve_limit depth handle (buffer ++ chunk) s in
      let ok' : IsOrderly depth ((buffer ++ chunk) ++ joined more) =
        rw (append_assoc buffer chunk (joined more)) ok in
      let whole =
        drain-append (suc (length (buffer ++ chunk))) (buffer ++ chunk) (joined more) s ok'
          (omega arith) in
      rw (← append_assoc buffer chunk (joined more), whole)
        (elim (Drained-cases first) [
          | inl (s', rest, e) ↦ rw e (
              receive_all-joined next chunks rest s'
                (IsOrderly-rest (buffer ++ chunk) (joined more) rest s s' _ ok' e))
          | inr (ends, ends') ↦
              ends (receive_all reserve_limit depth handle more) ∙ sym (ends' (joined more))
        ])
