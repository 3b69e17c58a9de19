-- ===== src/Examples/Server.antt =====
-- Runs of the laws of the dispatcher and of the replay (src/server/CommandDispatcher.cpp,
-- src/server/Server.cpp).
use distributed_in_memory_ke.Prelude.{
  ℕ, ◌+◌, ◌≡◌, ◌++◌, inr, none, some, refl, true, false, [], arith, Bytes, codes,
}
use distributed_in_memory_ke.Std.Decimal.{to_string_u64}
use distributed_in_memory_ke.Protocol.Value.{
  nil, cons, bulk_string, size, serialize, serialize_items,
}
use distributed_in_memory_ke.Protocol.Parser.{parse}
use distributed_in_memory_ke.Storage.Live.{live}
use distributed_in_memory_ke.Server.Handlers.{answer, handle_info}
use distributed_in_memory_ke.Server.Dispatch.{dispatch}
use distributed_in_memory_ke.Server.Request.{to_upper}
use distributed_in_memory_ke.Server.ReadOnly.{dispatch-read_only}
use distributed_in_memory_ke.Server.InfoText.{handle_info-default}
use distributed_in_memory_ke.Server.Replay.{replay, finished, dispatch_all, replay-serialize}
use distributed_in_memory_ke.Prelude.{bytes_eq}
use distributed_in_memory_ke.Storage.Dict.{find}
use distributed_in_memory_ke.Storage.Shards.{entry_at, get_shard_index}
use distributed_in_memory_ke.Server.Revival.{dispatch-revives}
use distributed_in_memory_ke.Server.Commands.{incr_of, request_of}
use distributed_in_memory_ke.Examples.{
  platform, three_keys, world, call, environment, set_request, incr_request,
}

dispatch-read_only_example :
    ((dispatch platform (call true) incr_request (world three_keys)).0.aof ≡ (world three_keys).aof)
    × ((span : ℕ) (j : Bytes)
        → live platform
            (50 + span)
            (dispatch platform (call true) incr_request (world three_keys)).0.storage
            j
          ≡ live platform (50 + span) three_keys j)
dispatch-read_only_example =
    dispatch-read_only platform (call true) incr_request (world three_keys) (omega arith) refl refl

-- Two commands, and the start of a third that was never written to its end.
replay-serialize_example :
    replay platform 100 false environment 9 80 0
      (serialize_items (cons set_request (cons incr_request nil)) ++ codes "*2")
      (world three_keys)
    ≡ finished
        (dispatch_all platform 100 false environment 0
          (cons set_request (cons incr_request nil))
          (world three_keys))
        (0 + size (cons set_request (cons incr_request nil)))
        (codes "*2")
unfolding serialize to_string_u64 parse
replay-serialize_example =
    replay-serialize platform 100 false environment (cons set_request (cons incr_request nil)) 9 80
      0 (codes "*2") (world three_keys)
      ((omega arith, (tt, (tt, (tt, tt)))), ((omega arith, (tt, (tt, tt))), tt)) (inr refl)
      (omega arith) (omega arith) (omega arith)

handle_info-default_example :
    handle_info (call false) (cons (bulk_string (codes "INFO")) nil) (world three_keys)
    ≡ answer (world three_keys) (bulk_string [])
handle_info-default_example =
    handle_info-default (call false) (cons (bulk_string (codes "INFO")) nil) (world three_keys) refl

shout : to_upper (codes "pExpireat") ≡ codes "PEXPIREAT"
unfolding to_upper
shout = refl

-- The key `a`, 41 until the time 100, at a call before that and at one after it.
dispatch-revives_example :
    (live platform 150
        (dispatch platform
          (call false)
          (request_of (incr_of (codes "a")))
          (world three_keys)).0.storage
        (codes "a")
      ≡ none)
    × (live platform 150
          (dispatch platform
            (record (call false) { now = 120 })
            (request_of (incr_of (codes "a")))
            (world three_keys)).0.storage
          (codes "a")
        ≡ some (codes "1", 0))
unfolding entry_at bytes_eq find get_shard_index
dispatch-revives_example =
    dispatch-revives platform (call false) (record (call false) { now = 120 }) (codes "a")
      (codes "41") 100 (world three_keys) refl refl (omega arith) refl refl (omega arith)
      (omega arith) 150 (omega arith)
