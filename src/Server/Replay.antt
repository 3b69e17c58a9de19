-- ===== src/Server/Replay.antt =====
-- The replay of the append-only file in `Server::start` (src/server/Server.cpp).
use distributed_in_memory_ke.Prelude.{
  ℕ, zero, suc, ◌+◌, ◌≤◌, ◌<◌, ◌≡◌, ◌⊎◌, ◌∙◌, ap, refl, Bool, true, false, [], ◌∷◌, ◌++◌,
  append_assoc, arith, inl, inr, Bytes, length, drop, drop-append, lengths, two63,
}
use distributed_in_memory_ke.Protocol.Value.{
  RespValue, RespValues, nil, cons, size, serialize, serialize_items,
}
use distributed_in_memory_ke.Protocol.Parser.{value, incomplete, throws, out_of_fuel, parse}
use distributed_in_memory_ke.Protocol.RoundTrip.{IsFrames, parse-serialize, length-serialize_pos}
use distributed_in_memory_ke.Storage.Entry.{Platform}
use distributed_in_memory_ke.Storage.Evict.{Sampler}
use distributed_in_memory_ke.Server.State.{World, Call}
use distributed_in_memory_ke.Server.Dispatch.{dispatch}

-- How a replay ends: by the loop's test or its `break`, with the state, the number of commands and
-- what is left of the text; by an exception of the parser; or past a bound of the model.
pub data Replayed : Type 0 where
  finished : World → ℕ → Bytes → Replayed
  crashed : Replayed
  too_deep : Replayed
  too_long : Replayed

-- What the environment answers at the n-th command: the clock and the samples.
pub record Environment : Type 0 where
  pub clock : ℕ → ℕ
  pub samples : ℕ → Sampler

module _ (platform : Platform) (reserve_limit : ℕ) (is_replica : Bool) (env : Environment) where
  -- No log, and past the read-only check.
  abbrev pub replay_call : ℕ → Call
  replay_call n = record {
    has_aof = false;
    is_read_only = is_replica;
    bypass_readonly = true;
    now = env.clock n;
    now_log = env.clock n;
    sampler = env.samples n;
  }

  -- `while (!aof_content.empty())`: `depth` bounds the recursion of the parser.
  unfoldable pub replay : ℕ → ℕ → ℕ → Bytes → World → Replayed
  replay zero depth n content w = too_long
  replay (suc rounds) depth n [] w = finished w n []
  replay (suc rounds) depth n (c ∷ content) w = elim (parse reserve_limit depth (c ∷ content)) [
    | incomplete ↦ finished w n (c ∷ content)
    | throws ↦ crashed
    | out_of_fuel ↦ too_deep
    | value request consumed ↦
        replay rounds depth (suc n) (drop consumed (c ∷ content))
          (dispatch platform (replay_call n) request w).0
  ]

  -- The commands of a list, one after the other.
  unfoldable pub dispatch_all : ℕ → RespValues → World → World
  dispatch_all n nil w = w
  dispatch_all n (cons request vs) w =
      dispatch_all (suc n) vs (dispatch platform (replay_call n) request w).0

  -- What ends a replay: the end of the file, or a frame that is not complete.
  abbrev pub EndsReplay : ℕ → Bytes → Type 0
  EndsReplay depth rest = (rest ≡ []) ⊎ (parse reserve_limit depth rest ≡ incomplete)

  replay-end :
      (rounds depth n : ℕ) (rest : Bytes) (w : World)
      → EndsReplay depth rest
      → replay (suc rounds) depth n rest w ≡ finished w n rest
  unfolding replay
  replay-end rounds depth n [] w stops = refl
  replay-end rounds depth n (c ∷ rest) w (inl empty) = cc
  replay-end rounds depth n (c ∷ rest) w (inr broken) = rw (broken, replay)

  replay-step :
      (rounds depth n consumed : ℕ) (content : Bytes) (request : RespValue) (w : World)
      → 0 < length content
      → parse reserve_limit depth content ≡ value request consumed
      → replay (suc rounds) depth n content w
        ≡ replay rounds depth
            (suc n)
            (drop consumed content)
            (dispatch platform (replay_call n) request w).0
  unfolding replay
  replay-step rounds depth n consumed [] request w pos' parsed = absurd (omega arith)
  replay-step rounds depth n consumed (c ∷ content) request w pos' parsed = rw (parsed, replay)

  -- A log that holds the prints of frames is replayed command by command, in order and to the last
  -- one: the replay ends with the state that dispatching the commands one after the other produces,
  -- and whatever incomplete text follows them is left alone. The text is shorter than 2 ^ 63 bytes,
  -- the depth is at least the length of the prints, and there is one round more than there are
  -- commands.
  pub replay-serialize :
      (vs : RespValues) (rounds depth n : ℕ) (rest : Bytes) (w : World)
      → IsFrames reserve_limit vs
      → EndsReplay depth rest
      → length (serialize_items vs ++ rest) < two63
      → length (serialize_items vs) ≤ depth
      → size vs < rounds
      → replay rounds depth n (serialize_items vs ++ rest) w
        ≡ finished (dispatch_all n vs w) (n + size vs) rest
  unfolding dispatch_all serialize
  replay-serialize vs zero depth n rest w ok stops bound enough long = absurd (omega arith)
  replay-serialize nil (suc rounds) depth n rest w ok stops bound enough long =
      replay-end rounds depth n rest w stops ∙ ap (λ k. finished w k rest) (omega arith)
  replay-serialize (cons v vs) (suc rounds) depth n rest w ok stops bound enough long =
      let text = serialize_items vs ++ rest in
      let pos' = length-serialize_pos v in
      rw (append_assoc (serialize v) (serialize_items vs) rest) (
        replay-step rounds depth n _ (serialize v ++ text) v w (omega lengths)
          (parse-serialize reserve_limit v text depth ok.0 (omega lengths) (omega lengths))
        ∙ rw (drop-append (serialize v) text) (
            replay-serialize vs rounds depth (suc n) rest (dispatch platform (replay_call n) v w).0
              ok.1 stops (omega lengths) (omega lengths) (omega arith)
            ∙ ap
                (λ k.
                  finished (dispatch_all (suc n) vs (dispatch platform (replay_call n) v w).0) k
                    rest)
                (omega arith)))
