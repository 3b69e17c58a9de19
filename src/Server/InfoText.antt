-- ===== src/Server/InfoText.antt =====
-- INFO without an argument (src/server/CommandDispatcher.cpp).
use distributed_in_memory_ke.Prelude.{◌≡◌, refl, []}
use distributed_in_memory_ke.Protocol.Value.{RespValues, bulk_string, size}
use distributed_in_memory_ke.Server.State.{World, Call}
use distributed_in_memory_ke.Server.Handlers.{answer, handle_info}
use distributed_in_memory_ke.Server.Info.{info_text}

-- INFO without an argument answers the empty text: the section "all" that it then asks for is none
-- of the sections, which are compared with "ALL".
pub handle_info-default :
    (call : Call) (vs : RespValues) (w : World)
    → size vs ≡ 1
    → handle_info call vs w ≡ answer w (bulk_string [])
unfolding handle_info info_text
handle_info-default call vs w alone = rw alone refl
