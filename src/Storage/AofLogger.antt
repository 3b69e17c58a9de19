-- ===== src/Storage/AofLogger.antt =====
-- `AOFLogger` (include/storage/AOFLogger.h, src/storage/AOFLogger.cpp): an append-only file. Each write
-- is flushed before the lock is released, so the file is what has been written. A disk that fails
-- is not modelled; a stream that is not open drops what it is given.
use distributed_in_memory_ke.Prelude.{
  ℕ, Bool, true, false, Option, none, some, ◌++◌, if◌then◌else◌, Bytes, length,
}

pub record AofLogger : Type 0 where
  pub is_open : Bool
  pub file : Bytes

-- The constructor, by whether the file can be opened for appending and by what it holds then (nothing,
-- where it is created). Otherwise it throws.
abbrev pub open_log : Bool → Bytes → Option AofLogger
open_log true file = some (record { is_open = true; file = file })
open_log false file = none

-- The destructor: the file keeps what has been written.
abbrev pub close_log : AofLogger → AofLogger
close_log aof = record aof { is_open = false }

-- `log`
unfoldable pub log : Bytes → AofLogger → AofLogger
log serialized_command aof =
    if aof.is_open then record aof { file = aof.file ++ serialized_command } else aof

-- `log_raw`
unfoldable pub log_raw : Bytes → AofLogger → AofLogger
log_raw text aof = if aof.is_open then record aof { file = aof.file ++ text } else aof

-- `tellp` on a stream in append mode: the end of the file.
unfoldable pub get_file_size : AofLogger → ℕ
get_file_size aof = if aof.is_open then length aof.file else 0
