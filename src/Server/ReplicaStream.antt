-- ===== src/Server/ReplicaStream.antt =====
-- What a replica (src/server/Server.cpp) has after a connection, however its stream is cut.
use distributed_in_memory_ke.Prelude.{
  ℕ, suc, ◌+◌, ◌<◌, ◌≡◌, ◌∙◌, ap, sym, refl, inl, inr, Bool, true, false, none, some, Option-cases,
  List, [], ◌∷◌, ◌++◌, append-nil, append_assoc, arith, Bytes, bytes_eq, length, take, drop,
  lengths,
}
use distributed_in_memory_ke.Protocol.Value.{RespValues, nil, cons, size, serialize_items}
use distributed_in_memory_ke.Protocol.Parser.{find_crlf, parse, incomplete}
use distributed_in_memory_ke.Protocol.Lines.{find_crlf-append}
use distributed_in_memory_ke.Protocol.RoundTrip.{IsFrames}
use distributed_in_memory_ke.Storage.Entry.{Platform}
use distributed_in_memory_ke.Storage.AofLogger.{AofLogger, log_raw}
use distributed_in_memory_ke.Server.State.{World}
use distributed_in_memory_ke.Server.Replay.{Environment, dispatch_all}
use distributed_in_memory_ke.Server.FrameLoop.{waiting, drain, joined}
use distributed_in_memory_ke.Server.Chunks.{IsOrderly}
use distributed_in_memory_ke.Server.Frames.{handle_all, drain-serialize}
use distributed_in_memory_ke.Server.Replica.{
  Replica, new_connection, continues, hello, apply, apply_frames, after_frames, on_remainder,
  on_answer, on_chunk, receive,
}
use distributed_in_memory_ke.Server.Greeting.{
  greeted, log_raw-nil, parse-nil, hello-IsOneLine, answer_whole,
}
use distributed_in_memory_ke.Server.ReplicaChunks.{
  receive-continues, receive-same, receive_first, streaming, take_chunks, chunk_step, at_end,
}

module _ (platform : Platform) (reserve_limit depth : ℕ) (is_replica : Bool)
    (env : Environment) where
  -- Waiting for the answer.
  waiting_for : AofLogger → World → ℕ → Bytes → Replica
  waiting_for aof w n buffer = record {
    aof = aof;
    world = w;
    applied = n;
    client_buffer = buffer;
    in_stream = false;
  }

  on_chunk-short :
      (chunk : Bytes) (aof : AofLogger) (w : World) (n : ℕ) (buffer : Bytes)
      → find_crlf (buffer ++ chunk) ≡ none
      → chunk_step platform reserve_limit depth is_replica env chunk (waiting_for aof w n buffer)
        ≡ continues (waiting_for aof w n (buffer ++ chunk))
  unfolding on_chunk waiting_for
  on_chunk-short chunk aof w n buffer short = rw (short, on_answer)

  on_chunk-answer :
      (chunk : Bytes) (aof : AofLogger) (w : World) (n : ℕ) (buffer : Bytes) (i : ℕ)
      → find_crlf (buffer ++ chunk) ≡ some i
      → take i (buffer ++ chunk) ≡ hello
      → chunk_step platform reserve_limit depth is_replica env chunk (waiting_for aof w n buffer)
        ≡ on_remainder platform reserve_limit depth is_replica env
            (drop (i + 2) (buffer ++ chunk))
            (waiting_for aof w n buffer)
  unfolding on_chunk waiting_for bytes_eq
  on_chunk-answer chunk aof w n buffer i found whole = rw (found, on_answer) (rw whole)

  apply_frames-nil :
      (s : World × ℕ)
      → 0 < depth
      → apply_frames platform reserve_limit depth is_replica env [] s ≡ waiting s []
  unfolding drain
  apply_frames-nil s deep = rw (parse-nil reserve_limit depth deep, drain) refl

  -- The bytes behind the answer are the first of the stream.
  on_remainder-streaming :
      (remainder : Bytes) (aof : AofLogger) (w : World) (n : ℕ) (buffer : Bytes)
      → 0 < depth
      → on_remainder platform reserve_limit depth is_replica env remainder
          (waiting_for aof w n buffer)
        ≡ chunk_step platform reserve_limit depth is_replica env remainder
            (streaming platform reserve_limit depth is_replica env aof [] (w, n))
  unfolding on_remainder on_chunk waiting_for
  on_remainder-streaming [] aof w n buffer deep =
      sym (rw (apply_frames-nil (w, n) deep, log_raw-nil aof, after_frames))
  on_remainder-streaming (c ∷ remainder) aof w n buffer deep = refl

  -- The whole connection, from its first chunk on.
  receive_answer :
      (chunks : List Bytes) (aof : AofLogger) (w : World) (n : ℕ) (buffer stream : Bytes)
      → buffer ++ joined chunks ≡ greeted stream
      → find_crlf buffer ≡ none
      → IsOrderly depth stream
      → take_chunks platform reserve_limit depth is_replica env chunks (waiting_for aof w n buffer)
        ≡ at_end platform reserve_limit depth is_replica env stream aof w n
  receive_answer [] aof w n buffer stream e short ok = absurd (
      cc (
        ap find_crlf (sym (append-nil buffer) ∙ e) ∙ find_crlf-append hello stream hello-IsOneLine))
  receive_answer (chunk ∷ chunks) aof w n buffer stream e short ok =
      let e' : (buffer ++ chunk) ++ joined chunks ≡ greeted stream =
        append_assoc buffer chunk (joined chunks) ∙ e in
      let start = waiting_for aof w n buffer in
      elim (Option-cases (find_crlf (buffer ++ chunk))) [
        | inl short' ↦
            receive-continues platform reserve_limit depth is_replica env chunk chunks start
              (waiting_for aof w n (buffer ++ chunk)) (on_chunk-short chunk aof w n buffer short')
            ∙ receive_answer chunks aof w n (buffer ++ chunk) stream e' short' ok
        | inr (i, found) ↦
            let (nine, whole, tail) =
              answer_whole (buffer ++ chunk) (joined chunks) stream i e' found in
            let first = drop (i + 2) (buffer ++ chunk) in
            let step : chunk_step platform reserve_limit depth is_replica env chunk start
                ≡ chunk_step platform reserve_limit depth is_replica env first
                    (streaming platform reserve_limit depth is_replica env aof [] (w, n)) =
              on_chunk-answer chunk aof w n buffer i found whole
              ∙ on_remainder-streaming first aof w n buffer (omega (arith, ok.1)) in
            receive-same platform reserve_limit depth is_replica env chunk first chunks start
              (streaming platform reserve_limit depth is_replica env aof [] (w, n)) step
            ∙ receive_first platform reserve_limit depth is_replica env first chunks aof w n
                (rw tail ok)
            ∙ ap (λ t. at_end platform reserve_limit depth is_replica env t aof w n) tail
      ]

  -- What a replica makes of its primary's answer does not depend on the chunks in which it comes:
  -- behind the greeting, an orderly stream leaves the state that logging the whole stream and
  -- applying all of its frames at once leaves. An orderly stream is below 2 ^ 63 - 2 bytes and the
  -- depth of the parser, and has no minus sign behind a `$`.
  pub receive-joined :
      (chunks : List Bytes) (stream : Bytes) (r : Replica)
      → joined chunks ≡ greeted stream
      → IsOrderly depth stream
      → receive platform reserve_limit depth is_replica env chunks (new_connection r)
        ≡ after_frames platform reserve_limit depth is_replica env
            (log_raw stream r.aof)
            (apply_frames platform reserve_limit depth is_replica env stream (r.world, r.applied))
  unfolding waiting_for find_crlf
  receive-joined chunks stream r e ok =
      receive_answer chunks r.aof r.world r.applied [] stream e refl ok

  handle_all-apply :
      (vs : RespValues) (rest : Bytes) (w : World) (n : ℕ)
      → handle_all reserve_limit depth
          (apply platform reserve_limit depth is_replica env)
          vs
          rest
          (w, n)
        ≡ waiting (dispatch_all platform reserve_limit is_replica env n vs w, n + size vs) rest
  unfolding handle_all apply dispatch_all
  handle_all-apply nil rest w n = ap (λ k. waiting (w, k) rest) (omega arith)
  handle_all-apply (cons v vs) rest w n =
      handle_all-apply vs rest _ (suc n)
      ∙ ap
          (λ k.
            waiting (dispatch_all platform reserve_limit is_replica env n (cons v vs) w, k) rest)
          (omega arith)

  -- A stream of printed frames and an incomplete text: each frame is applied once and in order, and
  -- the text waits in the buffer.
  pub receive-serialize :
      (chunks : List Bytes) (vs : RespValues) (rest : Bytes) (r : Replica)
      → joined chunks ≡ greeted (serialize_items vs ++ rest)
      → IsOrderly depth (serialize_items vs ++ rest)
      → IsFrames reserve_limit vs
      → parse reserve_limit depth rest ≡ incomplete
      → receive platform reserve_limit depth is_replica env chunks (new_connection r)
        ≡ continues (record {
          aof = log_raw (serialize_items vs ++ rest) r.aof;
          world = dispatch_all platform reserve_limit is_replica env r.applied vs r.world;
          applied = r.applied + size vs;
          client_buffer = rest;
          in_stream = true;
        })
  unfolding after_frames
  receive-serialize chunks vs rest r e ok oks short =
      let handled =
        drain-serialize reserve_limit depth (apply platform reserve_limit depth is_replica env) vs
          (suc (length (serialize_items vs ++ rest))) rest (r.world, r.applied) oks short
          (omega (arith, ok.0)) (omega (lengths, ok.1)) (omega lengths)
        ∙ handle_all-apply vs rest r.world r.applied in
      receive-joined chunks (serialize_items vs ++ rest) r e ok
      ∙ ap
          (after_frames platform reserve_limit depth is_replica env
            (log_raw (serialize_items vs ++ rest) r.aof))
          handled
