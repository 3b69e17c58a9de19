-- ===== src/Server/ReplicaChunks.antt =====
-- The stream that a replica reads (src/server/Server.cpp), chunk by chunk and as a whole.
use distributed_in_memory_ke.Prelude.{
  ℕ, ◌≡◌, ◌∙◌, ◌⊎◌, ap, sym, refl, inl, inr, Bool, true, List, [], ◌∷◌, ◌++◌, Bytes,
}
use distributed_in_memory_ke.Storage.Entry.{Platform}
use distributed_in_memory_ke.Storage.AofLogger.{AofLogger, log_raw}
use distributed_in_memory_ke.Server.State.{World}
use distributed_in_memory_ke.Server.Replay.{Environment}
use distributed_in_memory_ke.Server.FrameLoop.{
  Drained, waiting, stopped, crashed, too_deep, too_long, on_drained, receive_all, joined,
}
use distributed_in_memory_ke.Server.Chunks.{IsOrderly, receive_all-joined}
use distributed_in_memory_ke.Server.Replica.{
  Replica, Received, continues, lost, apply, apply_frames, after_frames, on_chunk, receive,
}
use distributed_in_memory_ke.Server.Greeting.{log_raw-nil, log_raw-append}

module _ (platform : Platform) (reserve_limit depth : ℕ) (is_replica : Bool)
    (env : Environment) where
  abbrev pub streaming : AofLogger → Bytes → World × ℕ → Replica
  streaming aof buffer (w, n) = record {
    aof = aof;
    world = w;
    applied = n;
    client_buffer = buffer;
    in_stream = true;
  }

  abbrev pub ended : AofLogger → Drained (World × ℕ) ⊥ → Received
  ended = after_frames platform reserve_limit depth is_replica env

  abbrev loop : List Bytes → Bytes → World × ℕ → Drained (World × ℕ) ⊥
  loop = receive_all reserve_limit depth (apply platform reserve_limit depth is_replica env)

  abbrev pub take_chunks : List Bytes → Replica → Received
  take_chunks = receive platform reserve_limit depth is_replica env

  ended-cases :
      (d : Drained (World × ℕ) ⊥)
      → ((w : World) × (n : ℕ) × (rest : Bytes) × (d ≡ waiting (w, n) rest))
        ⊎ ((aof : AofLogger) → ended aof d ≡ lost)
          × ((continue : Bytes → World × ℕ → Drained (World × ℕ) ⊥)
              → on_drained reserve_limit depth
                  (apply platform reserve_limit depth is_replica env)
                  continue
                  d
                ≡ d)
  unfolding after_frames
  ended-cases (waiting (w, n) rest) = inl (w, n, rest, refl)
  ended-cases (stopped e) = absurd e
  ended-cases (crashed s) = inr (λ aof. refl, λ continue. refl)
  ended-cases too_deep = inr (λ aof. refl, λ continue. refl)
  ended-cases too_long = inr (λ aof. refl, λ continue. refl)

  abbrev pub chunk_step : Bytes → Replica → Received
  chunk_step = on_chunk platform reserve_limit depth is_replica env

  pub receive-continues :
      (chunk : Bytes) (chunks : List Bytes) (r r' : Replica)
      → chunk_step chunk r ≡ continues r'
      → take_chunks (chunk ∷ chunks) r ≡ take_chunks chunks r'
  unfolding receive
  receive-continues chunk chunks r r' e = rw (e, receive) refl

  pub receive-lost :
      (chunk : Bytes) (chunks : List Bytes) (r : Replica)
      → chunk_step chunk r ≡ lost
      → take_chunks (chunk ∷ chunks) r ≡ lost
  unfolding receive
  receive-lost chunk chunks r e = rw (e, receive) refl

  pub receive-same :
      (chunk chunk' : Bytes) (chunks : List Bytes) (r r' : Replica)
      → chunk_step chunk r ≡ chunk_step chunk' r'
      → take_chunks (chunk ∷ chunks) r ≡ take_chunks (chunk' ∷ chunks) r'
  unfolding receive
  receive-same chunk chunk' chunks r r' e = rw (e, receive) refl

  pub on_chunk-streaming :
      (chunk : Bytes) (aof : AofLogger) (buffer : Bytes) (w : World) (n : ℕ)
      → chunk_step chunk (streaming aof buffer (w, n))
        ≡ ended
            (log_raw chunk aof)
            (apply_frames platform reserve_limit depth is_replica env (buffer ++ chunk) (w, n))
  unfolding on_chunk
  on_chunk-streaming chunk aof buffer w n = refl

  -- Within the stream.
  pub receive_stream :
      (chunks : List Bytes) (aof : AofLogger) (buffer : Bytes) (w : World) (n : ℕ)
      → take_chunks chunks (streaming aof buffer (w, n))
        ≡ ended (log_raw (joined chunks) aof) (loop chunks buffer (w, n))
  unfolding receive receive_all after_frames
  receive_stream [] aof buffer w n = rw (log_raw-nil aof)
  receive_stream (chunk ∷ chunks) aof buffer w n =
      let first = on_chunk-streaming chunk aof buffer w n in
      let all = log_raw (chunk ++ joined chunks) aof in
      elim (ended-cases
        (apply_frames platform reserve_limit depth is_replica env (buffer ++ chunk) (w, n))) [
          | inl (w', n', rest, e) ↦
              receive-continues chunk chunks (streaming aof buffer (w, n))
                (streaming (log_raw chunk aof) rest (w', n')) (first ∙ rw e)
              ∙ receive_stream chunks (log_raw chunk aof) rest w' n'
              ∙ ap (λ a. ended a (loop chunks rest (w', n')))
                  (log_raw-append chunk (joined chunks) aof)
              ∙ ap
                  (λ d. ended all (
                    on_drained reserve_limit depth
                      (apply platform reserve_limit depth is_replica env) (loop chunks) d))
                  (sym e)
          | inr (gone, stays) ↦
              receive-lost chunk chunks (streaming aof buffer (w, n))
                (first ∙ gone (log_raw chunk aof))
              ∙ sym (gone all)
              ∙ ap (ended all) (sym (stays (loop chunks)))
        ]

  -- The stream as a whole.
  abbrev pub at_end : Bytes → AofLogger → World → ℕ → Received
  at_end stream aof w n =
      ended (log_raw stream aof)
        (apply_frames platform reserve_limit depth is_replica env stream (w, n))

  pub receive_first :
      (first : Bytes) (chunks : List Bytes) (aof : AofLogger) (w : World) (n : ℕ)
      → IsOrderly depth (first ++ joined chunks)
      → take_chunks (first ∷ chunks) (streaming aof [] (w, n))
        ≡ at_end (first ++ joined chunks) aof w n
  receive_first first chunks aof w n ok =
      receive_stream (first ∷ chunks) aof [] w n
      ∙ ap (ended (log_raw (first ++ joined chunks) aof)) (
          receive_all-joined reserve_limit depth (apply platform reserve_limit depth is_replica env)
            first chunks [] (w, n) ok)
