-- ===== src/Server/System.antt =====
-- A primary at work (src/server/Server.cpp): the threads of the clients, the sweeper, and the state that
-- they share. A thread runs from one access of what is shared to the next: a command first works on the
-- storage engine, then on the log, and only then is the reply written, and other threads run between.
use distributed_in_memory_ke.Prelude.{
  ℕ, ◌≡◌, Bool, true, false, some, List, [], ◌∷◌, ◌++◌, Bytes, drop, get_elem?, set, ◌+◌, length,
  Option, none, codes, bytes_eq, ltb, if◌then◌else◌, pos,
}
use distributed_in_memory_ke.Protocol.Value.{
  RespValue, array, cons, integer, string_value, serialize,
}
use distributed_in_memory_ke.Server.Request.{to_upper, args_from}
use distributed_in_memory_ke.Storage.Operations.{del_key, exists_key}
use distributed_in_memory_ke.Protocol.Parser.{value, incomplete, parse}
use distributed_in_memory_ke.Storage.Entry.{Platform, CppString}
use distributed_in_memory_ke.Storage.Evict.{Sampler, Engine}
use distributed_in_memory_ke.Storage.AofLogger.{log}
use distributed_in_memory_ke.Storage.Sweeper.{sweep}
use distributed_in_memory_ke.Server.State.{
  World, Call, DispatchResult, reply, count_command, client_connects, client_leaves,
}
use distributed_in_memory_ke.Server.Handlers.{Outcome}
use distributed_in_memory_ke.Server.Dispatch.{is_command_name, dispatch}
use distributed_in_memory_ke.Server.PsyncStream.{Streaming, seek, stream_round}

-- The loops of `StorageEngine::del` and `exists` over their keys, which lock one shard after the other;
-- `exists` reads the clock once, before the first.
pub data KeyLoop : Type 0 where
  deletes : KeyLoop
  checks : ℕ → KeyLoop

-- The loop that a request runs through, and its keys.
abbrev pub named_loop : ℕ → Bytes → List Bytes → Option (KeyLoop × List Bytes)
named_loop now cmd keys =
    if bytes_eq cmd (codes "DEL")
    then some (deletes, keys)
    else if bytes_eq cmd (codes "EXISTS")
    then some (checks now, keys)
    else none

abbrev pub loop_of : ℕ → RespValue → Option (KeyLoop × List Bytes)
loop_of now (array (cons name (cons v vs))) =
    if is_command_name name
    then named_loop now (to_upper (string_value name)) (args_from 0 (cons v vs))
    else none
loop_of now _ = none

-- What DEL logs behind its loop; EXISTS logs nothing.
abbrev pub loop_text : KeyLoop → RespValue → ℕ → Bytes
loop_text deletes request count = if ltb 0 count then serialize request else []
loop_text (checks now) request count = []

-- Where the thread of a client is: in its loop, with `client_buffer`; in DEL or
-- EXISTS, with the keys that are left and the count so far; behind the storage engine, with
-- the rest of the buffer and the text that goes to the log; before the write of the reply; in the PSYNC
-- stream from an offset on; or at its end.
pub data Phase : Type 0 where
  reading : Bytes → Phase
  visiting : Bytes → RespValue → KeyLoop → List Bytes → ℕ → Phase
  storing : Bytes → Bytes → DispatchResult → Phase
  replying : Bytes → DispatchResult → Phase
  syncing : ℕ → Streaming → Phase
  gone : Phase

-- A client thread for each connection that has been accepted.
pub record System : Type 0 where
  pub world : World
  pub clients : List Phase

abbrev pub IsAt : System → ℕ → Phase → Type 0
IsAt s i p = get_elem? s.clients i ≡ some p

abbrev pub move : ℕ → Phase → System → System
move i p s = record s { clients = set s.clients i p }

-- The call of `dispatch` in `handle_client` of a primary.
abbrev pub primary_call : ℕ → ℕ → Sampler → Call
primary_call now now_log sampler = record {
  has_aof = true;
  is_read_only = false;
  bypass_readonly = false;
  now = now;
  now_log = now_log;
  sampler = sampler;
}

-- What stands in a log behind what it held before.
abbrev pub appended : World → World → Bytes
appended before after = drop (length before.aof.file) after.aof.file

-- A command on the storage engine; what it logs is kept for the next step.
abbrev pub store_outcome : ℕ → Bytes → System → Outcome → System
store_outcome i rest s (w, result) = record {
  world = record w { aof = s.world.aof };
  clients = set s.clients i (storing rest (appended s.world w) result);
}

-- A key of the loop, under the lock of its shard.
abbrev pub visit : Platform → KeyLoop → CppString → Engine → Engine × ℕ
visit platform deletes key e = del_key platform key e
visit platform (checks now) key e = exists_key platform now key e

abbrev pub visit_outcome :
    ℕ → Bytes → RespValue → KeyLoop → List Bytes → ℕ → System → Engine × ℕ → System
visit_outcome i rest request loop keys count s (e, more) = record {
  world = record s.world { storage = e };
  clients = set s.clients i (visiting rest request loop keys (count + more));
}

-- The end of a thread: `Connection` closes its descriptor, and the client is counted out.
abbrev pub leave : ℕ → System → System
leave i s = record { world = client_leaves s.world; clients = set s.clients i gone }

module _ (platform : Platform) (reserve_limit depth : ℕ) where
  -- What a thread may end at: nothing left to read, or a write that fails or was the last.
  abbrev pub MayLeave : Phase → Type 0
  MayLeave (reading buffer) = parse reserve_limit depth buffer ≡ incomplete
  MayLeave (visiting rest request loop keys count) = ⊥
  MayLeave (storing rest text result) = ⊥
  MayLeave (replying rest result) = Unit
  MayLeave (syncing offset stream) = Unit
  MayLeave gone = ⊥

  -- The steps of all threads. A round of the sweeper takes one lock after the other: it is a step for
  -- each shard, or for any shards at once.
  pub data Step (s : System) : System → Type 0 where
    accept :
        Step s (record { world = client_connects s.world; clients = s.clients ++ reading [] ∷ [] })
    read :
        (i : ℕ) (buffer chunk : Bytes)
        → IsAt s i (reading buffer)
        → parse reserve_limit depth buffer ≡ incomplete
        → Step s (move i (reading (buffer ++ chunk)) s)
    store_command :
        (i : ℕ) (buffer : Bytes) (request : RespValue) (consumed now now_log : ℕ)
        (sampler : Sampler)
        → IsAt s i (reading buffer)
        → parse reserve_limit depth buffer ≡ value request consumed
        → loop_of now request ≡ none
        → Step s (
            store_outcome i
              (drop consumed buffer)
              s
              (dispatch platform (primary_call now now_log sampler) request s.world))
    start_loop :
        (i : ℕ) (buffer : Bytes) (request : RespValue) (consumed now : ℕ) (loop : KeyLoop)
        (keys : List Bytes)
        → IsAt s i (reading buffer)
        → parse reserve_limit depth buffer ≡ value request consumed
        → loop_of now request ≡ some (loop, keys)
        → Step s (record {
          world = count_command s.world;
          clients = set s.clients i (visiting (drop consumed buffer) request loop keys 0);
        })
    visit_key :
        (i : ℕ) (rest : Bytes) (request : RespValue) (loop : KeyLoop) (key : Bytes)
        (keys : List Bytes) (count : ℕ)
        → IsAt s i (visiting rest request loop (key ∷ keys) count)
        → Step s (
            visit_outcome i rest request loop keys count s
              (visit platform loop (platform.make key) s.world.storage))
    end_loop :
        (i : ℕ) (rest : Bytes) (request : RespValue) (loop : KeyLoop) (count : ℕ)
        → IsAt s i (visiting rest request loop [] count)
        → Step s
            (move i (storing rest (loop_text loop request count) (reply (integer (pos count)))) s)
    log_command :
        (i : ℕ) (rest text : Bytes) (result : DispatchResult)
        → IsAt s i (storing rest text result)
        → Step s (record {
          world = record s.world { aof = log text s.world.aof };
          clients = set s.clients i (replying rest result);
        })
    reply_sent :
        (i : ℕ) (rest : Bytes) (result : DispatchResult)
        → IsAt s i (replying rest result)
        → result.is_psync ≡ false
        → result.close_connection ≡ false
        → Step s (move i (reading rest) s)
    start_stream :
        (i : ℕ) (rest : Bytes) (result : DispatchResult)
        → IsAt s i (replying rest result)
        → result.is_psync ≡ true
        → Step s (move i (syncing result.psync_offset (seek result.psync_offset)) s)
    stream :
        (i offset : ℕ) (state : Streaming)
        → IsAt s i (syncing offset state)
        → Step s (move i (syncing offset (stream_round s.world.aof.file state)) s)
    end_thread : (i : ℕ) (p : Phase) → IsAt s i p → MayLeave p → Step s (leave i s)
    sweep_shards :
        (now : ℕ) (owns : ℕ → Bool)
        → Step s (record s {
          world = record s.world { storage = sweep now owns platform s.world.storage };
        })

  -- What a start of the system leads to.
  pub data Reach (w : World) : System → Type 0 where
    start : Reach w (record { world = w; clients = [] })
    next : {s t : System} → Reach w s → Step s t → Reach w t
