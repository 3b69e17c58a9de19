-- ===== src/Lib.antt =====
-- A verification library of the key-value server: a TCP server that speaks the RESP protocol, keeps
-- its data in a sharded in-memory storage engine, logs every mutation to an append-only file, and
-- streams that file to replicas.
--
-- A client's bytes are cut into frames by `RESPParser::parse` (src/protocol/RESP.cpp). Each frame goes
-- to `CommandDispatcher::dispatch` (src/server/CommandDispatcher.cpp), which checks the arguments, calls
-- one operation of `StorageEngine` (src/storage/StorageEngine.cpp), writes what a replay needs to
-- `AOFLogger` (src/storage/AOFLogger.cpp), and returns a reply that `RESPValue::serialize` prints. At
-- its start the server parses and dispatches the contents of the log (src/server/Server.cpp).
--
-- The modules and the code that they model:
--   Prelude            numbers, tests, lists, signed integers and texts that all modules share.
--   Std                `std::from_chars`, `std::to_string` and `std::stoi` as the program uses them.
--   Protocol/Value     `RESPValue` (include/protocol/RESP.h): a data type with one constructor for each
--                      `create_` function, and `serialize`.
--   Protocol/Parser    `RESPParser`: read_line, parse_internal and parse. A position is an index into
--                      the whole buffer and may move backwards, as in the code.
--   Storage/Entry      `DictEntry` (include/storage/DictEntry.h), `entry_cost`, and strings with their
--                      capacity, which the standard does not determine: `Platform` is the parameter
--                      for the hash, `sizeof(DictEntry)` and the capacities.
--   Storage/Dict       `Shard::dict` as the list of its nodes in the order of iteration.
--   Storage/Shards     `shards_` (include/storage/StorageEngine.h), `get_shard_index`, and the lookup of
--                      a key.
--   Storage/Evict      the state of `StorageEngine` with its counters, and `evict_from_shard`.
--   Storage/Operations set, get, del, exists, incr, decr, expire, expire_at, pttl and persist.
--   Storage/Sweeper    a round of background_sweeper.
--   Storage/Meaning    the abstract contents of the store, a map from keys to values, and what SET, GET,
--                      DEL, INCR and DECR mean for it.
--   Storage/AofLogger  the contents of the log file.
--   Server/Request     the command in upper case, the arguments, `is_mutating_command`.
--   Server/State       what a dispatch works on, `Metrics` (include/server/Metrics.h) included.
--   Server/Handlers    PING, ECHO, QUIT, INFO, CONFIG and PSYNC.
--   Server/Info        the text of INFO.
--   Server/Keys        the commands that work on keys.
--   Server/Dispatch    `dispatch`: the checks of a request, the read-only guard and the chain of commands.
--   Server/Replay      the loop over the log in `Server::start`.
--   Net/Connection     `Connection` (include/net/Connection.h, src/net/Connection.cpp): the ownership of a
--                      descriptor and `write_bytes`, with what `::write` answers as a parameter.
--   Server/FrameLoop   the loop over the frames of a buffer, which src/server/Server.cpp has three times,
--                      inside the loop over what is read.
--   Server/Client      `handle_client`: a connection as a function of the chunks that a client sends.
--   Server/PsyncStream the rounds in which a primary reads its log for a replica.
--   Server/Replica     a connection of `run_replica_worker` to the primary.
--   Server/Worker      the attempts of `run_replica_worker`, with what the socket calls answer.
--   Server/System      the threads of a primary as a step relation: a command is a step on the storage
--                      engine, a step on the log and the reply, and other threads run in between. DEL and
--                      EXISTS are a step on the storage engine for each key.
--   Server/SystemHistory  runs of these threads in which clients send commands, with their history.
--   Server/Start       `Server::start`: the replay, the set-up of the socket, the loop over `::accept`.
--   Server/Commands    requests as abstract commands; Server/Serving serves a list of them.
--   Server/Lifecycle   the constructor of `Server` (include/server/Server.h) and `stop`.
--   Main               the arguments of `main` (src/main.cpp).
--   Examples           concrete values and the theorems applied to them.
-- The other modules under Main, Protocol, Storage, Net and Server hold proofs and are named for what
-- they prove.
--
-- Every function takes the state and returns the new one. Each call of an operation takes the time
-- that `now_ms()` returns in it. An operation holds the lock of its shard to its end; `del` and `exists`
-- lock one shard after the other, and between their keys other threads run in Server/System. The count
-- that they return is an `int` in the code and a number here; the theorem on it bounds the keys. A
-- stream from an offset of 2 ^ 63 or more starts at the beginning of the file, since `seekg` fails.
-- Random samples are an argument, the sampler, that maps the number of a draw to the key of a bucket's
-- first node. A round of the sweeper takes the locks that it gets. Words wrap around modulo 2 ^ 64,
-- `int64_t` is read in two's complement, also where C++ leaves the overflow undefined.
--
-- `parse_internal` recurses on fuel, the depth of its calls; the round trip and the termination theorem
-- say how much is enough. The eviction loop runs for as many rounds as the shard has nodes, since each
-- of them erases one. The replay has a bound on its rounds and passes the parser's depth on. The loop
-- over a buffer has one round more than the buffer has bytes, and `write_bytes` one more than the data,
-- since each of their rounds but the last takes a byte at least.
--
-- Not modelled: the registration of signal handlers (src/main.cpp), the waits between attempts and rounds
-- (src/server/Server.cpp), console output (src/util), a disk that fails, and steps of other
-- threads within the lock of a shard: the atomic counters, the account of the memory among them, are
-- read and written by an operation in one step, and so is the account by all keys of a round of the
-- sweeper.
pub mod Prelude
pub mod Std
pub mod Protocol
pub mod Storage
pub mod Main
pub mod Net
pub mod Server
pub mod Examples
