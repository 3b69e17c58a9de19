-- ===== src/Server/Client.antt =====
-- `Server::handle_client` (src/server/Server.cpp): one client's connection. The other threads run
-- between its commands, and are not modelled here. What a client reads is a list of chunks, which ends
-- when `read` answers 0 or less, or when the server stops.
use distributed_in_memory_ke.Prelude.{
  ℕ, suc, Bool, true, false, [], ◌++◌, List, if◌then◌else◌, Bytes, take,
}
use distributed_in_memory_ke.Protocol.Value.{RespValue, serialize}
use distributed_in_memory_ke.Storage.Entry.{Platform}
use distributed_in_memory_ke.Storage.Evict.{Sampler}
use distributed_in_memory_ke.Net.Connection.{
  Connection, Writer, Written, wrote, too_many_rounds, write_bytes,
}
use distributed_in_memory_ke.Server.State.{World, Call, DispatchResult}
use distributed_in_memory_ke.Server.Dispatch.{dispatch}
use distributed_in_memory_ke.Server.FrameLoop.{Next, go, stop, Drained, receive_all}

-- The world, what has been sent on the connection, and how many commands have been dispatched.
pub record Session : Type 0 where
  pub world : World
  pub sent : Bytes
  pub served : ℕ

-- The ways to return from within the loop: a write failed, the PSYNC stream starts at an offset, or
-- the client quits.
pub data Left : Type 0 where
  write_failed : Session → Left
  streaming : Session → ℕ → Left
  quit : Session → Left

-- What the environment answers at the n-th command of the connection.
pub record ClientEnvironment : Type 0 where
  pub clock : ℕ → ℕ
  pub log_clock : ℕ → ℕ
  pub samples : ℕ → Sampler
  pub writers : ℕ → Writer

abbrev pub new_session : World → Session
new_session w = record { world = w; sent = []; served = 0 }

module _ (platform : Platform) (is_replica : Bool) (env : ClientEnvironment)
    (conn : Connection) where
  abbrev pub client_call : ℕ → Call
  client_call n = record {
    has_aof = true;
    is_read_only = is_replica;
    bypass_readonly = false;
    now = env.clock n;
    now_log = env.log_clock n;
    sampler = env.samples n;
  }

  -- What follows the write of a response.
  abbrev pub after_response : DispatchResult → Session → Bool → Next Session Left
  after_response result s false = stop (write_failed s)
  after_response result s true =
      if result.is_psync
      then stop (streaming s result.psync_offset)
      else if result.close_connection
      then stop (quit s)
      else go s

  -- The write sends a prefix of the response.
  unfoldable pub on_response : DispatchResult → World → Session → Written → Next Session Left
  on_response result w s (wrote ok total_written) =
      after_response result
        (record {
          world = w;
          sent = s.sent ++ take total_written (serialize result.response);
          served = suc s.served;
        })
        ok
  on_response result w s too_many_rounds = stop (write_failed (record s { world = w }))

  unfoldable pub handle_frame : RespValue → Session → Next Session Left
  unfolding on_response write_bytes
  handle_frame request s =
      let (w, result) = dispatch platform (client_call s.served) request s.world in
      on_response result w s (write_bytes (env.writers s.served) conn (serialize result.response))

  -- The whole connection. `depth` bounds the recursion of the parser.
  unfoldable pub handle_client : ℕ → ℕ → List Bytes → World → Drained Session Left
  unfolding handle_frame receive_all
  handle_client reserve_limit depth chunks w =
      receive_all reserve_limit depth handle_frame chunks [] (new_session w)
