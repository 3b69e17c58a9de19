-- ===== src/Main.antt =====
-- `main` (src/main.cpp): the arguments of the program, and the server that it makes of them.
use distributed_in_memory_ke.Prelude.{
  ℕ, zero, suc, ◌+◌, ◌%◌, ◌^◌, ◌≤◌, ◌<◌, ◌≡◌, ◌∙◌, ◌⊎◌, ap, sym, refl, inl, inr, Bool, true, false,
  ◌&&◌, Bool-cases, Option, none, some, Option-cases, if◌then◌else◌, List, [], ◌∷◌, arith, ℤ, pos,
  Bytes, codes, bytes_eq, length,
}
use distributed_in_memory_ke.Std.Stoi.{stoi, to_u16}
use distributed_in_memory_ke.Server.Lifecycle.{Server, new_server, stop_server}
pub mod Arguments

pub record Options : Type 0 where
  pub port : ℕ
  pub replica_host : Bytes
  pub replica_port : ℕ

abbrev pub defaults : Options
defaults = record { port = 6379; replica_host = []; replica_port = 0 }

-- What the loop over the arguments comes to; `std::stoi` may throw.
pub data Read : Type 0 where
  options : Options → Read
  throws : Read
  too_many_rounds : Read

abbrev pub with_port : Option ℤ → (ℕ → Read) → Read
with_port none continue = throws
with_port (some z) continue = continue (to_u16 z)

-- The loop from an argument on. An option that lacks its values is skipped like any other argument.
unfoldable pub read_loop : ℕ → List Bytes → Options → Read
read_loop zero args o = too_many_rounds
read_loop (suc rounds) [] o = options o
read_loop (suc rounds) (arg ∷ []) o = read_loop rounds [] o
read_loop (suc rounds) (arg ∷ value ∷ []) o =
    if bytes_eq arg (codes "--port")
    then with_port (stoi value) (λ n. read_loop rounds [] (record o { port = n }))
    else read_loop rounds (value ∷ []) o
read_loop (suc rounds) (arg ∷ value ∷ second ∷ rest) o =
    if bytes_eq arg (codes "--port")
    then with_port (stoi value) (λ n. read_loop rounds (second ∷ rest) (record o { port = n }))
    else if bytes_eq arg (codes "--replicaof")
    then with_port (stoi second)
        (λ n. read_loop rounds rest (record o { replica_host = value; replica_port = n }))
    else read_loop rounds (value ∷ second ∷ rest) o

-- One round for each argument, and the last test.
unfoldable pub read_arguments : List Bytes → Read
unfolding read_loop stoi
read_arguments args = read_loop (suc (length args)) args defaults

abbrev pub server_of : Options → Server
server_of o = new_server o.port o.replica_host o.replica_port

-- The handler of SIGINT and SIGTERM, by what `global_server` points to.
abbrev signal_handler : Option Server → Option Server × Option ℤ
signal_handler none = (none, none)
signal_handler (some server) = let (stopped, closed) = stop_server server in (some stopped, closed)
