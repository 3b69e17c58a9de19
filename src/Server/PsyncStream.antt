-- ===== src/Server/PsyncStream.antt =====
-- The PSYNC stream of `Server::handle_client` (src/server/Server.cpp): the primary reads its log file
-- from the offset on and writes what it reads to the replica, for ever.
use distributed_in_memory_ke.Prelude.{
  ℕ, zero, suc, ◌+◌, Bool, false, if◌then◌else◌, ltb, ◌==◌, ◌<◌, ◌≡◌, not, lt→ltb, two63, [], ◌++◌,
  Bytes, length, take, drop,
}

-- The position in the file, whether the stream is in the state of failure that a read past the end of
-- the file leaves until `clear`, and what has been written to the replica.
pub record Streaming : Type 0 where
  pub position : ℕ
  pub failed : Bool
  pub sent : Bytes

-- `seekg`; a position behind the end is no failure. From 2 ^ 63 on the offset is negative as a position
-- and `seekg` fails: the file stays at its beginning, and the stream in the state of failure.
abbrev pub seek : ℕ → Streaming
seek offset = record {
  position = if ltb offset two63 then offset else 0;
  failed = not (ltb offset two63);
  sent = [];
}

pub seek_small :
    (offset : ℕ)
    → offset < two63
    → seek offset ≡ record { position = offset; failed = false; sent = [] }
seek_small offset small = rw (lt→ltb offset two63 small)

-- `sizeof(stream_buf)`
abbrev pub buffer_size : ℕ
buffer_size = 4096

-- What `read` gets: a read that meets the end of the file fails, also when it gets some bytes.
abbrev pub read_file : Bytes → ℕ → Bytes
read_file file position = take buffer_size (drop position file)

-- One round, on the file as it is then. Nothing read clears the failure.
unfoldable pub stream_round : Bytes → Streaming → Streaming
stream_round file s =
    if s.failed
    then record s { failed = false }
    else (let text = read_file file s.position in
        if length text == 0 then s else record {
          position = s.position + length text;
          failed = ltb (length text) buffer_size;
          sent = s.sent ++ text;
        })

-- The rounds of the loop; the i-th one finds the i-th file.
unfoldable pub stream_rounds : (ℕ → Bytes) → ℕ → ℕ → Streaming → Streaming
unfolding stream_round
stream_rounds files i zero s = s
stream_rounds files i (suc n) s = stream_rounds files (suc i) n (stream_round (files i) s)
