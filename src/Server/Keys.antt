-- ===== src/Server/Keys.antt =====
-- The branches of `CommandDispatcher::dispatch` (src/server/CommandDispatcher.cpp) that work on keys.
-- `vs` are the values of the request, the command itself first. The strings of a request reach the
-- storage engine as the objects that the parser has built, `platform.make`.
use distributed_in_memory_ke.Prelude.{
  ℕ, ◌*◌, ◌/◌, Bool, not, Option, none, some, ltb, ◌==◌, if◌then◌else◌, ℤ, pos, negsuc, to_u64,
  to_i64, Bytes, codes, bytes_eq,
}
use mathlib.Core.List.{map}
use distributed_in_memory_ke.Std.Decimal.{from_chars_i64, from_chars_u64, to_string_u64}
use distributed_in_memory_ke.Protocol.Value.{
  RespValue, RespValues, nil, cons, simple_string, error, integer, bulk_string, array, null, size,
  serialize,
}
use distributed_in_memory_ke.Storage.Entry.{CppString, Platform, add_size}
use distributed_in_memory_ke.Storage.Evict.{Engine}
use distributed_in_memory_ke.Storage.Operations.{
  set, get, del, exists, incr, decr, expire, expire_at, pttl, persist,
}
use distributed_in_memory_ke.Server.Request.{arg, args_from}
use distributed_in_memory_ke.Server.State.{World, Call, log_unless_bypassed}
use distributed_in_memory_ke.Server.Handlers.{
  Outcome, wrong_arguments, not_an_integer, answer, store, yes_or_no,
}

-- EXPIRE is logged as PEXPIREAT, with a deadline from the clock at that moment.
abbrev pub pexpireat_command : Bytes → ℕ → RespValue
pexpireat_command key deadline = array (
    cons (bulk_string (codes "PEXPIREAT"))
      (cons (bulk_string key) (cons (bulk_string (to_string_u64 deadline)) nil)))

-- `time_val * 1000` on `int64_t`, in two's complement where C++ leaves the overflow undefined.
abbrev pub offset_of : Bytes → ℤ → ℤ
offset_of cmd time_val =
    if bytes_eq cmd (codes "EXPIRE") then to_i64 (to_u64 time_val * 1000) else time_val

module _ (platform : Platform) (call : Call) (vs : RespValues) (w : World) where
  abbrev key : CppString
  key = platform.make (arg vs 1)

  -- The request is logged as it came.
  abbrev log_request : World → World
  log_request w' = log_unless_bypassed call (serialize (array vs)) w'

  unfoldable pub handle_set : Outcome
  handle_set =
      if ltb (size vs) 3
      then answer w (wrong_arguments (codes "set"))
      else (let (e, done) =
            set platform call.sampler call.now key (platform.make (arg vs 2)) w.storage in
          if done
          then answer (log_request (store e w)) (simple_string (codes "OK"))
          else answer (store e w)
              (error (codes "OOM command not allowed when used memory > 'maxmemory'")))

  abbrev bulk_or_null : Option Bytes → RespValue
  bulk_or_null none = null
  bulk_or_null (some s) = bulk_string s

  unfoldable pub handle_get : Outcome
  handle_get =
      if not (size vs == 2)
      then answer w (wrong_arguments (codes "get"))
      else (let (e, found) = get platform call.now key w.storage in
          answer (store e w) (bulk_or_null found))

  unfoldable pub handle_del : Outcome
  handle_del =
      if ltb (size vs) 2
      then answer w (wrong_arguments (codes "del"))
      else (let (e, deleted) = del platform (map platform.make (args_from 1 vs)) w.storage in
          answer (if ltb 0 deleted then log_request (store e w) else store e w)
            (integer (pos deleted)))

  unfoldable pub handle_exists : Outcome
  handle_exists =
      if ltb (size vs) 2
      then answer w (wrong_arguments (codes "exists"))
      else (let (e, count) =
            exists platform call.now (map platform.make (args_from 1 vs)) w.storage in
          answer (store e w) (integer (pos count)))

  -- INCR and DECR after the storage engine.
  abbrev number_reply : Engine × Option ℤ → Outcome
  number_reply (e, some val) = answer (log_request (store e w)) (integer val)
  number_reply (e, none) = answer (store e w) not_an_integer

  unfoldable pub handle_incr : Outcome
  handle_incr =
      if not (size vs == 2)
      then answer w (wrong_arguments (codes "incr"))
      else number_reply (incr platform call.sampler call.now key w.storage)

  unfoldable pub handle_decr : Outcome
  handle_decr =
      if not (size vs == 2)
      then answer w (wrong_arguments (codes "decr"))
      else number_reply (decr platform call.sampler call.now key w.storage)

  abbrev expire_reply : ℤ → Engine × Bool → Outcome
  expire_reply ms_offset (e, res) =
      answer
        (if res
          then log_unless_bypassed call
              (serialize (pexpireat_command (arg vs 1) (add_size call.now_log (to_u64 ms_offset))))
              (store e w)
          else store e w)
        (yes_or_no res)

  unfoldable pub handle_expire : Bytes → Outcome
  handle_expire cmd =
      if not (size vs == 3)
      then answer w (wrong_arguments cmd)
      else elim (from_chars_i64 (arg vs 2)) [
        | none ↦ answer w not_an_integer
        | some (time_val, _) ↦
            expire_reply (offset_of cmd time_val)
              (expire platform call.now key (offset_of cmd time_val) w.storage)
      ]

  abbrev logged_if : Engine × Bool → Outcome
  logged_if (e, res) = answer (if res then log_request (store e w) else store e w) (yes_or_no res)

  unfoldable pub handle_pexpireat : Outcome
  handle_pexpireat =
      if not (size vs == 3)
      then answer w (wrong_arguments (codes "pexpireat"))
      else elim (from_chars_u64 (arg vs 2)) [
        | none ↦ answer w not_an_integer
        | some (abs_ms, _) ↦ logged_if (expire_at platform call.now key abs_ms w.storage)
      ]

  -- `ms_left / 1000` for TTL; a negative answer is passed on.
  abbrev pub ttl_answer : Bytes → ℤ → ℤ
  ttl_answer cmd (pos ms) = if bytes_eq cmd (codes "TTL") then pos (ms / 1000) else pos ms
  ttl_answer cmd (negsuc n) = negsuc n

  unfoldable pub handle_ttl : Bytes → Outcome
  handle_ttl cmd =
      if not (size vs == 2)
      then answer w (wrong_arguments cmd)
      else (let (e, ms_left) = pttl platform call.now key w.storage in
          answer (store e w) (integer (ttl_answer cmd ms_left)))

  unfoldable pub handle_persist : Outcome
  handle_persist =
      if not (size vs == 2)
      then answer w (wrong_arguments (codes "persist"))
      else logged_if (persist platform call.now key w.storage)
