-- ===== src/Server/FrameLoop.antt =====
-- The loop that the server runs over a buffer in `Server::handle_client` and, twice, in
-- `Server::run_replica_worker` (src/server/Server.cpp): parse a frame, erase its bytes, handle it,
-- until no complete frame is left.
use distributed_in_memory_ke.Prelude.{ℕ, zero, suc, ◌++◌, List, [], ◌∷◌, Bytes, length, drop}
use distributed_in_memory_ke.Protocol.Value.{RespValue}
use distributed_in_memory_ke.Protocol.Parser.{value, incomplete, throws, out_of_fuel, parse}

-- What becomes of the loop after a frame: it goes on, or the function that holds it returns.
pub data Next {ℓ κ} (S : Type ℓ) (E : Type κ) : Type (ℓ ⊔ κ) where
  go : S → Next S E
  stop : E → Next S E

-- How the loop ends: it waits for more bytes, with what is left in the buffer; or the function
-- returns; or the parser throws, which ends the program; or a bound of the model is met.
pub data Drained {ℓ κ} (S : Type ℓ) (E : Type κ) : Type (ℓ ⊔ κ) where
  waiting : S → Bytes → Drained S E
  stopped : E → Drained S E
  crashed : S → Drained S E
  too_deep : Drained S E
  too_long : Drained S E

module _ {ℓ κ} {S : Type ℓ} {E : Type κ} (reserve_limit depth : ℕ)
    (handle : RespValue → S → Next S E) where
  unfoldable pub drain : ℕ → Bytes → S → Drained S E
  drain zero buffer s = too_long
  drain (suc rounds) buffer s = elim (parse reserve_limit depth buffer) [
    | incomplete ↦ waiting s buffer
    | throws ↦ crashed s
    | out_of_fuel ↦ too_deep
    | value request consumed ↦ elim (handle request s) [
      | go s' ↦ drain rounds (drop consumed buffer) s'
      | stop e ↦ stopped e
    ]
  ]

  -- As many rounds as the buffer has bytes, and one.
  abbrev pub settle : Bytes → S → Drained S E
  settle buffer s = drain (suc (length buffer)) buffer s

  -- The loop goes on when more bytes come.
  abbrev pub resume : Bytes → Drained S E → Drained S E
  resume more (waiting s rest) = settle (rest ++ more) s
  resume more (stopped e) = stopped e
  resume more (crashed s) = crashed s
  resume more too_deep = too_deep
  resume more too_long = too_long

  -- The loop around it: each chunk that is read is appended to the buffer. It ends with the
  -- connection, or with the server.
  abbrev pub on_drained : (Bytes → S → Drained S E) → Drained S E → Drained S E
  on_drained continue (waiting s rest) = continue rest s
  on_drained continue (stopped e) = stopped e
  on_drained continue (crashed s) = crashed s
  on_drained continue too_deep = too_deep
  on_drained continue too_long = too_long

  unfoldable pub receive_all : List Bytes → Bytes → S → Drained S E
  receive_all [] buffer s = waiting s buffer
  receive_all (chunk ∷ chunks) buffer s =
      on_drained (receive_all chunks) (settle (buffer ++ chunk) s)

-- The stream that the chunks are cut from.
abbrev pub joined : List Bytes → Bytes
joined [] = []
joined (chunk ∷ chunks) = chunk ++ joined chunks
