-- ===== src/Server/Greeting.antt =====
-- The answer that a replica waits for, and its log (src/server/Server.cpp).
use distributed_in_memory_ke.Prelude.{
  ℕ, zero, suc, ◌+◌, ◌<◌, ◌≡◌, ◌∙◌, ap, sym, refl, inl, inr, none, some, Bool-cases, [], ◌++◌,
  append-nil, append_assoc, arith, Bytes, take, drop, take-append_left, drop-append_left,
}
use distributed_in_memory_ke.Protocol.Value.{crlf}
use distributed_in_memory_ke.Protocol.Parser.{find_crlf, parse, incomplete}
use distributed_in_memory_ke.Protocol.Progress.{find_crlf-le}
use distributed_in_memory_ke.Protocol.Extension.{find_crlf-extends}
use distributed_in_memory_ke.Storage.AofLogger.{AofLogger, log_raw}
use distributed_in_memory_ke.Server.Replica.{hello}

pub log_raw-nil : (aof : AofLogger) → log_raw [] aof ≡ aof
unfolding log_raw
log_raw-nil aof = elim (Bool-cases aof.is_open) [
  | inl is ↦ rw (is, append-nil aof.file)
  | inr f ↦ rw f
]

pub log_raw-append :
    (s t : Bytes) (aof : AofLogger) → log_raw t (log_raw s aof) ≡ log_raw (s ++ t) aof
unfolding log_raw
log_raw-append s t aof = ground (arith, append_assoc aof.file s t)

pub parse-nil : (reserve_limit depth : ℕ) → 0 < depth → parse reserve_limit depth [] ≡ incomplete
unfolding parse
parse-nil reserve_limit zero h = elim h [ ]
parse-nil reserve_limit (suc depth) h = refl

-- The greeting and the stream behind it.
abbrev pub greeted : Bytes → Bytes
greeted stream = hello ++ (crlf ++ stream)

pub hello-IsOneLine : find_crlf hello ≡ none
unfolding find_crlf
hello-IsOneLine = refl

-- A buffer that holds the whole answer of the primary.
pub answer_whole :
    (buffer more stream : Bytes) (i : ℕ)
    → buffer ++ more ≡ greeted stream
    → find_crlf buffer ≡ some i
    → (i ≡ 9) × (take i buffer ≡ hello) × (drop (i + 2) buffer ++ more ≡ stream)
unfolding find_crlf
answer_whole buffer more stream i e found =
    let found' : find_crlf (greeted stream) ≡ some i =
      ap find_crlf (sym e) ∙ find_crlf-extends buffer more i found in
    let nine : i ≡ 9 = cc in
    let room = find_crlf-le buffer i found in
    (
      nine,
      sym (take-append_left i buffer more (omega arith)) ∙ rw (e, nine) refl,
      sym (drop-append_left (i + 2) buffer more (omega arith)) ∙ rw (e, nine) refl,
    )
