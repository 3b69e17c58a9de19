-- ===== src/Server/Info.antt =====
-- The text of INFO (src/server/CommandDispatcher.cpp).
use distributed_in_memory_ke.Prelude.{
  ℕ, Bool, ◌||◌, [], ◌++◌, if◌then◌else◌, Bytes, codes, bytes_eq,
}
use distributed_in_memory_ke.Std.Decimal.{to_string_u64}
use distributed_in_memory_ke.Protocol.Value.{crlf}
use distributed_in_memory_ke.Storage.Evict.{
  memory_usage, get_max_memory, get_keyspace_hits, get_keyspace_misses, get_evicted_keys,
  get_expired_keys,
}
use distributed_in_memory_ke.Storage.AofLogger.{get_file_size}
use distributed_in_memory_ke.Server.State.{World, Call}

abbrev wants : Bytes → Bytes → Bool
wants section name = bytes_eq section (codes "ALL") || bytes_eq section name

abbrev counter : Bytes → ℕ → Bytes
counter name n = name ++ (to_string_u64 n ++ crlf)

module _ (call : Call) (w : World) (section : Bytes) where
  info_server : Bytes
  info_server =
      if wants section (codes "SERVER")
      then codes "# Server" ++ (crlf ++ (codes "redis_mode:standalone" ++ crlf))
      else []

  info_clients : Bytes
  info_clients =
      if wants section (codes "CLIENTS")
      then codes "# Clients" ++ (crlf ++ counter (codes "connected_clients:") w.connected_clients)
      else []

  info_memory : Bytes
  info_memory =
      if wants section (codes "MEMORY")
      then codes "# Memory"
        ++ (crlf
            ++ (counter (codes "used_memory:") (memory_usage w.storage)
                ++ counter (codes "maxmemory:") (get_max_memory w.storage)))
      else []

  info_persistence : Bytes
  info_persistence =
      if wants section (codes "PERSISTENCE")
      then codes "# Persistence"
        ++ (crlf
            ++ (codes "aof_enabled:1"
                ++ (crlf
                    ++ (if call.has_aof
                        then counter (codes "aof_current_size:") (get_file_size w.aof)
                        else []))))
      else []

  info_stats : Bytes
  info_stats =
      if wants section (codes "STATS")
      then codes "# Stats"
        ++ (crlf
            ++ (counter (codes "total_commands_processed:") w.commands_processed
                ++ (counter (codes "keyspace_hits:") (get_keyspace_hits w.storage)
                    ++ (counter (codes "keyspace_misses:") (get_keyspace_misses w.storage)
                        ++ (counter (codes "evicted_keys:") (get_evicted_keys w.storage)
                            ++ counter (codes "expired_keys:") (get_expired_keys w.storage))))))
      else []

  info_replication : Bytes
  info_replication =
      if wants section (codes "REPLICATION")
      then codes "# Replication"
        ++ (crlf
            ++ (codes "role:"
                ++ ((if call.is_read_only then codes "slave" else codes "master")
                    ++ (crlf
                        ++ (if call.has_aof
                            then counter (codes "master_repl_offset:") (get_file_size w.aof)
                            else [])))))
      else []

  unfoldable pub info_text : Bytes
  unfolding info_server info_clients info_memory info_persistence info_stats info_replication
      bytes_eq get_file_size to_string_u64
  info_text =
      info_server
      ++ (info_clients ++ (info_memory ++ (info_persistence ++ (info_stats ++ info_replication))))
