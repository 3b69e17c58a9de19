-- ===== src/Server/SystemLoop.antt =====
-- DEL and EXISTS of a client whose thread no other thread interrupts (src/storage/StorageEngine.cpp,
-- src/server/CommandDispatcher.cpp): the steps for their keys come to one dispatch.
use distributed_in_memory_ke.Server.System.{System}
