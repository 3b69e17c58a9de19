-- ===== src/Examples.antt =====
-- Concrete values for the tests: a platform whose strings are as large as their contents, engines
-- with two shards, and the requests that a client sends.
use distributed_in_memory_ke.Prelude.{
  ℕ, ◌≤◌, ◌≡◌, arith, ℤ, pos, refl, Bool, true, false, none, [], ◌∷◌, Bytes, codes, length,
}
use distributed_in_memory_ke.Protocol.Value.{RespValue, RespValues, nil, cons, bulk_string, array}
use distributed_in_memory_ke.Storage.Entry.{CppString, DictEntry, Platform}
use distributed_in_memory_ke.Storage.Evict.{Engine, Sampler, new_engine}
use distributed_in_memory_ke.Server.State.{World, Call}
use distributed_in_memory_ke.Server.Replay.{Environment}
use distributed_in_memory_ke.Net.Connection.{Connection, Writer}
use distributed_in_memory_ke.Server.Client.{ClientEnvironment}
use distributed_in_memory_ke.Server.Replica.{Replica}
pub mod Protocol
pub mod Storage
pub mod Server
pub mod Net
pub mod Clients
pub mod Replication
pub mod Recovery
pub mod Threads
pub mod Memory

abbrev pub text : Bytes → CppString
text s = record { chars = s; capacity = length s }

abbrev pub platform : Platform
platform = record {
  hash = length;
  sizeof_entry = 48;
  make = text;
  copy = λ s. s;
  assign = λ t s. s;
  move_assign = λ t s. s;
  make_chars = λ s. refl;
  copy_chars = λ s. refl;
  assign_chars = λ t s. refl;
  move_assign_chars = λ t s. refl;
}

-- The draws always hit an empty bucket.
abbrev pub no_sample : Sampler
no_sample i d = none

abbrev pub entry : Bytes → ℕ → ℕ → DictEntry
entry chars deadline access = record {
  value = text chars;
  expire_at_ms = deadline;
  last_access_ms = access;
}

abbrev pub a : CppString
a = text (codes "a")

abbrev pub b : CppString
b = text (codes "b")

abbrev pub cd : CppString
cd = text (codes "cd")

-- `a` and `b` share a shard. `a` has a deadline at 100.
abbrev pub three_keys : Engine
three_keys = record (new_engine 2) {
  shards =
      ((cd, entry (codes "x") 0 7) ∷ [])
      ∷ ((a, entry (codes "41") 100 5) ∷ (b, entry (codes "y") 0 6) ∷ [])
      ∷ [];
  total_memory_usage = 247;
}

-- The same under a limit that they fill.
abbrev pub full_engine : Engine
full_engine = record three_keys { max_memory_bytes = 250 }

-- A limit that a single entry exceeds.
abbrev pub tight_engine : Engine
tight_engine = record three_keys { max_memory_bytes = 10 }

abbrev pub world : Engine → World
world e = record {
  storage = e;
  aof = record { is_open = true; file = [] };
  commands_processed = 0;
  connected_clients = 0;
}

abbrev pub call : Bool → Call
call is_read_only = record {
  has_aof = true;
  is_read_only = is_read_only;
  bypass_readonly = false;
  now = 50;
  now_log = 51;
  sampler = no_sample;
}

abbrev pub environment : Environment
environment = record { clock = λ n. 50; samples = λ n. no_sample }

abbrev pub set_values : RespValues
set_values =
    cons (bulk_string (codes "SET"))
      (cons (bulk_string (codes "a")) (cons (bulk_string (codes "1")) nil))

abbrev pub set_request : RespValue
set_request = array set_values

abbrev pub incr_request : RespValue
incr_request = array (cons (bulk_string (codes "INCR")) (cons (bulk_string (codes "a")) nil))

pub pos_le : (i count n : ℕ) → pos count ≡ pos n → n ≤ count
pos_le i count n e = let same : count ≡ n = cc in omega arith

-- The first call writes all the bytes.
abbrev pub all_at_once : Writer
all_at_once = record { write = λ i count. pos count; write-le = pos_le }

abbrev pub connection : Connection
connection = record { fd = pos 4 }

abbrev pub client_environment : ClientEnvironment
client_environment = record {
  clock = λ n. 50;
  log_clock = λ n. 51;
  samples = λ n. no_sample;
  writers = λ n. all_at_once;
}

-- `SET a 1` and `INCR a`.
abbrev pub two_requests : RespValues
two_requests = cons set_request (cons incr_request nil)

abbrev pub replica : Replica
replica = record {
  aof = record { is_open = true; file = [] };
  world = world three_keys;
  applied = 0;
  client_buffer = [];
  in_stream = false;
}
