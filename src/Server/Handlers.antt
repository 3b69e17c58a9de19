-- ===== src/Server/Handlers.antt =====
-- The branches of `CommandDispatcher::dispatch` (src/server/CommandDispatcher.cpp) that work on no
-- key. `vs` are the values of the request, the command itself first.
use distributed_in_memory_ke.Prelude.{
  Bool, true, not, ◌||◌, none, some, ◌++◌, ltb, ◌==◌, if◌then◌else◌, pos, to_u64, Bytes, codes,
  bytes_eq,
}
use distributed_in_memory_ke.Std.Decimal.{from_chars_i64, from_chars_u64}
use distributed_in_memory_ke.Protocol.Value.{
  RespValue, RespValues, simple_string, error, integer, bulk_string, size,
}
use distributed_in_memory_ke.Storage.Evict.{Engine, set_max_memory}
use distributed_in_memory_ke.Server.Request.{arg, to_upper}
use distributed_in_memory_ke.Server.State.{World, Call, DispatchResult, reply}
use distributed_in_memory_ke.Server.Info.{info_text}

abbrev pub Outcome : Type 0
Outcome = World × DispatchResult

-- The error on a wrong number of arguments.
abbrev pub wrong_arguments : Bytes → RespValue
wrong_arguments name =
    error (codes "ERR wrong number of arguments for '" ++ (name ++ codes "' command"))

abbrev pub not_an_integer : RespValue
not_an_integer = error (codes "ERR value is not an integer or out of range")

abbrev pub answer : World → RespValue → Outcome
answer w response = (w, reply response)

abbrev pub store : Engine → World → World
store e w = record w { storage = e }

-- `create_integer(res ? 1 : 0)`
abbrev pub yes_or_no : Bool → RespValue
yes_or_no res = integer (pos (if res then 1 else 0))

module _ (call : Call) (vs : RespValues) (w : World) where
  unfoldable pub handle_ping : Outcome
  handle_ping =
      if ltb 2 (size vs)
      then answer w (wrong_arguments (codes "ping"))
      else if size vs == 2
      then answer w (bulk_string (arg vs 1))
      else answer w (simple_string (codes "PONG"))

  unfoldable pub handle_echo : Outcome
  handle_echo =
      if not (size vs == 2)
      then answer w (wrong_arguments (codes "echo"))
      else answer w (bulk_string (arg vs 1))

  unfoldable pub handle_quit : Outcome
  handle_quit =
      if not (size vs == 1)
      then answer w (wrong_arguments (codes "quit"))
      else (w, record (reply (simple_string (codes "OK"))) { close_connection = true })

  unfoldable pub handle_info : Outcome
  handle_info =
      if ltb 2 (size vs)
      then answer w (wrong_arguments (codes "info"))
      else answer w (
          bulk_string
            (info_text call w (if size vs == 2 then to_upper (arg vs 1) else codes "all")))

  unfoldable pub handle_config : Outcome
  handle_config =
      if not (size vs == 4) || not (bytes_eq (to_upper (arg vs 1)) (codes "SET"))
      then answer w (error (codes "ERR unsupported config command"))
      else if bytes_eq (to_upper (arg vs 2)) (codes "MAXMEMORY")
      then elim (from_chars_i64 (arg vs 3)) [
        | some (val, _) ↦
            answer (store (set_max_memory (to_u64 val) w.storage) w) (simple_string (codes "OK"))
        | none ↦ answer w (error (codes "ERR invalid maxmemory value"))
      ]
      else answer w (error (codes "ERR unsupported config parameter"))

  unfoldable pub handle_psync : Outcome
  handle_psync =
      if not (size vs == 2)
      then answer w (wrong_arguments (codes "psync"))
      else elim (from_chars_u64 (arg vs 1)) [
        | some (offset, _) ↦ (
          w,
          record (reply (simple_string (codes "CONTINUE"))) {
            is_psync = true;
            psync_offset = offset;
          },
        )
        | none ↦ answer w (error (codes "ERR invalid offset"))
      ]
