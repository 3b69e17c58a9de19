-- ===== src/Server/Request.antt =====
-- How `CommandDispatcher` (src/server/CommandDispatcher.cpp) reads a request.
use distributed_in_memory_ke.Prelude.{
  ℕ, zero, suc, ◌-◌, Bool, ◌&&◌, ◌||◌, List, [], ◌∷◌, leb, if◌then◌else◌, Bytes, codes, bytes_eq,
}
use distributed_in_memory_ke.Protocol.Value.{RespValues, nil, cons, string_value}

-- `std::toupper` in the default locale.
unfoldable pub to_upper_byte : ℕ → ℕ
to_upper_byte c = if leb b'a' c && leb c b'z' then c - 32 else c

unfoldable pub to_upper : Bytes → Bytes
unfolding to_upper_byte
to_upper [] = []
to_upper (c ∷ s) = to_upper_byte c ∷ to_upper s

unfoldable pub is_mutating_command : Bytes → Bool
is_mutating_command cmd =
    bytes_eq cmd (codes "SET")
    || bytes_eq cmd (codes "DEL")
    || bytes_eq cmd (codes "INCR")
    || bytes_eq cmd (codes "DECR")
    || bytes_eq cmd (codes "EXPIRE")
    || bytes_eq cmd (codes "PEXPIRE")
    || bytes_eq cmd (codes "PEXPIREAT")
    || bytes_eq cmd (codes "PERSIST")

-- `request.array_value[i].string_value`, for an index that the caller has checked.
abbrev pub arg : RespValues → ℕ → Bytes
arg nil i = []
arg (cons v vs) zero = string_value v
arg (cons v vs) (suc i) = arg vs i

-- The string values from an index on: what DEL and EXISTS push into `keys`.
abbrev pub args_from : ℕ → RespValues → List Bytes
args_from i nil = []
args_from zero (cons v vs) = string_value v ∷ args_from zero vs
args_from (suc i) (cons v vs) = args_from i vs
