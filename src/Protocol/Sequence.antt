-- ===== src/Protocol/Sequence.antt =====
-- One sequence of values behind another, and their prints (src/protocol/RESP.cpp).
use distributed_in_memory_ke.Prelude.{ℕ, ◌+◌, ◌≡◌, refl, ◌++◌, append_assoc, arith}
use distributed_in_memory_ke.Protocol.Value.{
  RespValues, nil, cons, size, serialize, serialize_items,
}
use distributed_in_memory_ke.Protocol.RoundTrip.{IsFrames}

abbrev pub append_values : RespValues → RespValues → RespValues
append_values nil vs = vs
append_values (cons w ws) vs = cons w (append_values ws vs)

pub serialize_items-append_values :
    (ws vs : RespValues)
    → serialize_items (append_values ws vs) ≡ serialize_items ws ++ serialize_items vs
unfolding serialize
serialize_items-append_values nil vs = refl
serialize_items-append_values (cons w ws) vs = rw (
  serialize_items-append_values ws vs,
  append_assoc (serialize w) (serialize_items ws) (serialize_items vs),
)

pub size-append_values : (ws vs : RespValues) → size (append_values ws vs) ≡ size ws + size vs
size-append_values nil vs = omega arith
size-append_values (cons w ws) vs = omega (arith, size-append_values ws vs)

module _ (reserve_limit : ℕ) where
  pub IsFrames-append_values :
      (ws vs : RespValues)
      → IsFrames reserve_limit ws
      → IsFrames reserve_limit vs
      → IsFrames reserve_limit (append_values ws vs)
  IsFrames-append_values nil vs hw hv = hv
  IsFrames-append_values (cons w ws) vs hw hv = (hw.0, IsFrames-append_values ws vs hw.1 hv)
