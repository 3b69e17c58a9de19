-- ===== src/Protocol/Value.antt =====
-- `RESPValue` (include/protocol/RESP.h) and `RESPValue::serialize` (src/protocol/RESP.cpp).
-- The struct is a tagged union: its values are made by the `create_` functions, which set the field
-- that the type tag selects and leave the others empty. A constructor here is one of these functions.
use distributed_in_memory_ke.Prelude.{ℕ, suc, [], ◌∷◌, ◌++◌, Bytes, codes, length, ℤ}
use distributed_in_memory_ke.Std.Decimal.{to_string_u64, to_string_i64}

mutual
  pub data RespValue : Type 0 where
    simple_string : Bytes → RespValue
    error : Bytes → RespValue
    integer : ℤ → RespValue
    bulk_string : Bytes → RespValue
    array : RespValues → RespValue
    null : RespValue

  -- `std::vector<RESPValue>`
  pub data RespValues : Type 0 where
    nil : RespValues
    cons : RespValue → RespValues → RespValues

-- `array_value.size()`
abbrev pub size : RespValues → ℕ
size nil = 0
size (cons v vs) = suc (size vs)

-- The field `string_value`, empty where the type has none.
abbrev pub string_value : RespValue → Bytes
string_value (simple_string s) = s
string_value (error s) = s
string_value (bulk_string s) = s
string_value _ = []

abbrev pub crlf : Bytes
crlf = 13 ∷ 10 ∷ []

unfoldable mutual
  pub serialize : RespValue → Bytes
  serialize (simple_string s) = b'+' ∷ (s ++ crlf)
  serialize (error s) = b'-' ∷ (s ++ crlf)
  serialize (integer i) = b':' ∷ (to_string_i64 i ++ crlf)
  serialize (bulk_string s) = b'$' ∷ (to_string_u64 (length s) ++ (crlf ++ (s ++ crlf)))
  serialize (array vs) = b'*' ∷ (to_string_u64 (size vs) ++ (crlf ++ serialize_items vs))
  serialize null = codes "$-1" ++ crlf

  pub serialize_items : RespValues → Bytes
  serialize_items nil = []
  serialize_items (cons v vs) = serialize v ++ serialize_items vs
