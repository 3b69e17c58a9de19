-- ===== src/Server/Frames.antt =====
-- The loop over the frames of a buffer (src/server/Server.cpp): on a buffer of printed frames, and the
-- properties that it keeps.
use distributed_in_memory_ke.Prelude.{
  ℕ, zero, suc, ◌≤◌, ◌<◌, ◌≡◌, refl, inl, inr, ◌⊎◌, ◌++◌, [], ◌∷◌, List, arith, Bytes, two63,
  length, drop, drop-append, append_assoc, lengths,
}
use distributed_in_memory_ke.Protocol.Value.{
  RespValue, RespValues, nil, cons, serialize, serialize_items,
}
use distributed_in_memory_ke.Protocol.Parser.{Parsed, value, incomplete, throws, out_of_fuel, parse}
use distributed_in_memory_ke.Protocol.RoundTrip.{
  IsFrame, IsFrames, parse-serialize, length-serialize_pos,
}
use distributed_in_memory_ke.Protocol.Closed.{parse-IsFrame}
use distributed_in_memory_ke.Server.FrameLoop.{
  Next, go, stop, Drained, waiting, stopped, crashed, too_deep, too_long, drain, on_drained,
  receive_all,
}
use distributed_in_memory_ke.Server.Chunks.{Next-cases}

Parsed-cases {ℓ} :
    {A : Type ℓ} (r : Parsed A)
    → (r ≡ incomplete) ⊎ (r ≡ throws) ⊎ (r ≡ out_of_fuel) ⊎ ((a : A) × (q : ℕ) × (r ≡ value a q))
Parsed-cases (value a q) = inr (inr (inr (a, q, refl)))
Parsed-cases incomplete = inl refl
Parsed-cases throws = inr (inl refl)
Parsed-cases out_of_fuel = inr (inr (inl refl))

-- A property of the states, and one of what the loop returns.
module _ {ℓ κ μ} {S : Type ℓ} {E : Type κ} (P : S → Type μ) (Q : E → Type μ) where
  abbrev pub NextHolds : Next S E → Type μ
  NextHolds (go s) = P s
  NextHolds (stop e) = Q e

  abbrev pub DrainedHolds : Drained S E → Type μ
  DrainedHolds (waiting s rest) = P s
  DrainedHolds (stopped e) = Q e
  DrainedHolds (crashed s) = P s
  DrainedHolds too_deep = Unit
  DrainedHolds too_long = Unit

module _ {ℓ κ} {S : Type ℓ} {E : Type κ} (reserve_limit depth : ℕ)
    (handle : RespValue → S → Next S E) where
  -- The frames of a list, handled one after the other; `rest` is left in the buffer.
  unfoldable pub handle_all : RespValues → Bytes → S → Drained S E
  handle_all nil rest s = waiting s rest
  handle_all (cons request vs) rest s = elim (handle request s) [
    | go s' ↦ handle_all vs rest s'
    | stop e ↦ stopped e
  ]

  -- A buffer that holds the prints of frames is handled frame by frame.
  pub drain-serialize :
      (vs : RespValues) (rounds : ℕ) (rest : Bytes) (s : S)
      → IsFrames reserve_limit vs
      → parse reserve_limit depth rest ≡ incomplete
      → length (serialize_items vs ++ rest) < two63
      → length (serialize_items vs) ≤ depth
      → length (serialize_items vs) < rounds
      → drain reserve_limit depth handle rounds (serialize_items vs ++ rest) s
        ≡ handle_all vs rest s
  unfolding drain handle_all serialize
  drain-serialize vs zero rest s ok stops bound deep long = absurd (omega arith)
  drain-serialize nil (suc rounds) rest s ok stops bound deep long = rw (stops, drain) refl
  drain-serialize (cons v vs) (suc rounds) rest s ok stops bound deep long =
      let text = serialize_items vs ++ rest in
      let pos' = length-serialize_pos v in
      let parsed =
        parse-serialize reserve_limit v text depth ok.0 (omega lengths) (omega lengths) in
      rw (append_assoc (serialize v) (serialize_items vs) rest) (elim (Next-cases (handle v s)) [
        | inl (s', goes) ↦
            rw (parsed, drain)
              (rw (goes, drain, handle_all)
                (rw (drop-append (serialize v) text) (
                  drain-serialize vs rounds rest s' ok.1 stops (omega lengths) (omega lengths)
                    (omega lengths))))
        | inr (e, stops') ↦ rw (parsed, drain) (rw (stops', drain, handle_all) refl)
      ])

  module _ {μ} (P : S → Type μ) (Q : E → Type μ) where
    module _
        (keeps : (v : RespValue) (s : S)
          → IsFrame reserve_limit v
          → P s
          → NextHolds P Q (handle v s)) where
      drain-Holds :
          (rounds : ℕ) (buffer : Bytes) (s : S)
          → P s
          → DrainedHolds P Q (drain reserve_limit depth handle rounds buffer s)
      unfolding drain
      drain-Holds zero buffer s h = tt
      drain-Holds (suc rounds) buffer s h = elim (Parsed-cases (parse reserve_limit depth buffer)) [
        | inl short ↦ rw (short, drain) h
        | inr (inl broken) ↦ rw (broken, drain) h
        | inr (inr (inl deep)) ↦ rw (deep, drain) tt
        | inr (inr (inr (v, q, parsed))) ↦
            let frame : IsFrame reserve_limit v =
              rw parsed at (parse-IsFrame reserve_limit depth buffer) in
            let kept = keeps v s frame h in
            elim (Next-cases (handle v s)) [
              | inl (s', goes) ↦
                  rw (parsed, drain)
                    (rw (goes, drain) (drain-Holds rounds (drop q buffer) s' (rw goes at kept)))
              | inr (e, stops) ↦ rw (parsed, drain) (rw (stops, drain) (rw stops at kept))
            ]
      ]

      on_drained-Holds :
          (continue : Bytes → S → Drained S E) (d : Drained S E)
          → ((rest : Bytes) (s : S) → P s → DrainedHolds P Q (continue rest s))
          → DrainedHolds P Q d
          → DrainedHolds P Q (on_drained reserve_limit depth handle continue d)
      on_drained-Holds continue (waiting s rest) more h = more rest s h
      on_drained-Holds continue (stopped e) more h = h
      on_drained-Holds continue (crashed s) more h = h
      on_drained-Holds continue too_deep more h = tt
      on_drained-Holds continue too_long more h = tt

      pub receive_all-Holds :
          (chunks : List Bytes) (buffer : Bytes) (s : S)
          → P s
          → DrainedHolds P Q (receive_all reserve_limit depth handle chunks buffer s)
      unfolding receive_all
      receive_all-Holds [] buffer s h = h
      receive_all-Holds (chunk ∷ chunks) buffer s h =
          on_drained-Holds (receive_all reserve_limit depth handle chunks) _
            (λ rest s' h'. receive_all-Holds chunks rest s' h')
            (drain-Holds (suc (length (buffer ++ chunk))) (buffer ++ chunk) s h)
