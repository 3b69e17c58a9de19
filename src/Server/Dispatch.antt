-- ===== src/Server/Dispatch.antt =====
-- `CommandDispatcher::dispatch` (src/server/CommandDispatcher.cpp).
use distributed_in_memory_ke.Prelude.{
  Bool, true, false, not, ◌&&◌, ◌||◌, ◌++◌, if◌then◌else◌, Bytes, codes, bytes_eq,
}
use distributed_in_memory_ke.Protocol.Value.{
  RespValue, RespValues, cons, simple_string, error, bulk_string, array, string_value,
}
use distributed_in_memory_ke.Storage.Entry.{Platform}
use distributed_in_memory_ke.Server.Request.{to_upper, is_mutating_command}
use distributed_in_memory_ke.Server.State.{World, Call, count_command}
use distributed_in_memory_ke.Server.Handlers.{
  Outcome, answer, handle_ping, handle_echo, handle_quit, handle_info, handle_config, handle_psync,
}
use distributed_in_memory_ke.Server.Keys.{
  handle_set, handle_get, handle_del, handle_exists, handle_incr, handle_decr, handle_expire,
  handle_pexpireat, handle_ttl, handle_persist,
}

-- `type != BulkString && type != SimpleString` of the first value, negated.
abbrev pub is_command_name : RespValue → Bool
is_command_name (bulk_string s) = true
is_command_name (simple_string s) = true
is_command_name _ = false

module _ (platform : Platform) (call : Call) where
  -- The chain of comparisons, on the command in upper case.
  unfoldable pub run_command : Bytes → RespValues → World → Outcome
  run_command cmd vs w =
      if bytes_eq cmd (codes "PING")
      then handle_ping call vs w
      else if bytes_eq cmd (codes "ECHO")
      then handle_echo call vs w
      else if bytes_eq cmd (codes "QUIT")
      then handle_quit call vs w
      else if bytes_eq cmd (codes "SET")
      then handle_set platform call vs w
      else if bytes_eq cmd (codes "GET")
      then handle_get platform call vs w
      else if bytes_eq cmd (codes "DEL")
      then handle_del platform call vs w
      else if bytes_eq cmd (codes "EXISTS")
      then handle_exists platform call vs w
      else if bytes_eq cmd (codes "INCR")
      then handle_incr platform call vs w
      else if bytes_eq cmd (codes "DECR")
      then handle_decr platform call vs w
      else if bytes_eq cmd (codes "EXPIRE") || bytes_eq cmd (codes "PEXPIRE")
      then handle_expire platform call vs w cmd
      else if bytes_eq cmd (codes "PEXPIREAT")
      then handle_pexpireat platform call vs w
      else if bytes_eq cmd (codes "TTL") || bytes_eq cmd (codes "PTTL")
      then handle_ttl platform call vs w cmd
      else if bytes_eq cmd (codes "PERSIST")
      then handle_persist platform call vs w
      else if bytes_eq cmd (codes "INFO")
      then handle_info call vs w
      else if bytes_eq cmd (codes "CONFIG")
      then handle_config call vs w
      else if bytes_eq cmd (codes "PSYNC")
      then handle_psync call vs w
      else answer w (error (codes "ERR unknown command '" ++ (cmd ++ codes "'")))

  unfoldable pub checked_command : Bytes → RespValues → World → Outcome
  checked_command cmd vs w =
      if call.is_read_only && not call.bypass_readonly && is_mutating_command cmd
      then answer w (error (codes "READONLY You can't write against a read only replica"))
      else run_command cmd vs w

  abbrev pub on_request : RespValue → World → Outcome
  on_request (array (cons name vs)) w =
      if is_command_name name
      then checked_command (to_upper (string_value name)) (cons name vs) w
      else answer w (error (codes "ERR invalid command format"))
  on_request _ w =
      answer w (error (codes "ERR invalid request type, expected array of bulk strings"))

  -- Every request is counted, whatever becomes of it.
  unfoldable pub dispatch : RespValue → World → Outcome
  dispatch request w = on_request request (count_command w)
