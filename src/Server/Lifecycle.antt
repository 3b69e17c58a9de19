-- ===== src/Server/Lifecycle.antt =====
-- The `Server` object (include/server/Server.h, src/server/Server.cpp), without its storage engine and
-- its log, which `World` holds.
use distributed_in_memory_ke.Prelude.{
  ℕ, ◌≡◌, refl, inl, inr, Bool, Bool-cases, true, false, not, ◌&&◌, ◌==◌, ltb, Option, none, some,
  if◌then◌else◌, [], ◌∷◌, ℤ, pos, negsuc, Bytes,
}

pub record Server : Type 0 where
  pub port : ℕ
  pub server_fd : ℤ
  pub running : Bool
  pub replica_host : Bytes
  pub replica_port : ℕ
  pub is_replica : Bool

-- `replica_host_.empty()`
abbrev pub is_empty : Bytes → Bool
is_empty [] = true
is_empty (c ∷ s) = false

abbrev pub new_server : ℕ → Bytes → ℕ → Server
new_server port replica_host replica_port = record {
  port = port;
  server_fd = negsuc 0;
  running = false;
  replica_host = replica_host;
  replica_port = replica_port;
  is_replica = not (is_empty replica_host) && ltb 0 replica_port;
}

-- `server_fd_ != -1`
abbrev pub has_socket : ℤ → Bool
has_socket (pos n) = true
has_socket (negsuc n) = not (n == 0)

-- `stop`, which the destructor and the signal handler call, with what is passed to `::close`.
unfoldable pub stop_server : Server → Server × Option ℤ
stop_server server =
    if has_socket server.server_fd
    then (record server { running = false; server_fd = negsuc 0 }, some server.server_fd)
    else (record server { running = false }, none)

-- The destructor.
abbrev destroy_server : Server → Server × Option ℤ
destroy_server server = stop_server server

-- A second `stop` closes nothing.
stop_server-twice :
    (server : Server) → stop_server (stop_server server).0 ≡ ((stop_server server).0, none)
unfolding stop_server
stop_server-twice server = elim (Bool-cases (has_socket server.server_fd)) [
  | inl is ↦ rw is refl
  | inr none' ↦ rw (none', stop_server) (rw none' refl)
]
