-- ===== src/Server/State.antt =====
-- What a dispatch works on: the storage engine and the log that `Server` owns
-- (include/server/Server.h), the counters of `Metrics` (include/server/Metrics.h), and the result of
-- a dispatch (include/server/CommandDispatcher.h).
use distributed_in_memory_ke.Prelude.{
  ℕ, ◌-◌, ◌%◌, ◌^◌, ◌+◌, Bool, false, not, ◌&&◌, if◌then◌else◌, Bytes,
}
use distributed_in_memory_ke.Protocol.Value.{RespValue}
use distributed_in_memory_ke.Storage.Entry.{add_size}
use distributed_in_memory_ke.Storage.Evict.{Engine, Sampler}
use distributed_in_memory_ke.Storage.AofLogger.{AofLogger, log}

pub record World : Type 0 where
  pub storage : Engine
  pub aof : AofLogger
  pub commands_processed : ℕ
  pub connected_clients : ℕ

-- The arguments of `dispatch` besides the request, and what the environment answers in the call:
-- the clock at the call of the storage engine and at the later one for the log, and the samples.
-- `has_aof` says that the pointer to the log is not null.
pub record Call : Type 0 where
  pub has_aof : Bool
  pub is_read_only : Bool
  pub bypass_readonly : Bool
  pub now : ℕ
  pub now_log : ℕ
  pub sampler : Sampler

pub record DispatchResult : Type 0 where
  pub response : RespValue
  pub close_connection : Bool
  pub is_psync : Bool
  pub psync_offset : ℕ

-- `{response, false, false, 0}`
abbrev pub reply : RespValue → DispatchResult
reply response = record {
  response = response;
  close_connection = false;
  is_psync = false;
  psync_offset = 0;
}

-- `if (aof && !bypass_readonly) aof->log(…)`
unfoldable pub log_unless_bypassed : Call → Bytes → World → World
unfolding log
log_unless_bypassed call text w =
    if call.has_aof && not call.bypass_readonly then record w { aof = log text w.aof } else w

abbrev pub count_command : World → World
count_command w = record w { commands_processed = add_size w.commands_processed 1 }

-- `connected_clients` is a 32-bit counter.
abbrev pub client_connects : World → World
client_connects w = record w { connected_clients = (w.connected_clients + 1) % 2 ^ 32 }

abbrev pub client_leaves : World → World
client_leaves w = record w { connected_clients = (w.connected_clients + (2 ^ 32 - 1)) % 2 ^ 32 }
