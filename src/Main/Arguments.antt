-- ===== src/Main/Arguments.antt =====
-- What the arguments of the program (src/main.cpp) come to.
use distributed_in_memory_ke.Main.{
  Options, defaults, Read, options, throws, too_many_rounds, with_port, read_loop, read_arguments,
  server_of,
}
use distributed_in_memory_ke.Prelude.{
  ℕ, zero, suc, ◌^◌, ◌<◌, ◌≡◌, refl, Bool, true, false, Option, none, some, if◌then◌else◌, List, [],
  ◌∷◌, arith, ℤ, pos, to_u64, Bytes, codes, bytes_eq, length,
}
use distributed_in_memory_ke.Std.Decimal.{is_digit, scan_number, to_string_u64}
use distributed_in_memory_ke.Std.DecimalRoundTrip.{to_digits_shape, scan_number-to_string}
use distributed_in_memory_ke.Std.Stoi.{stoi, skip_spaces, to_u16}

abbrev Ends : Read → Type 0
Ends (options o) = Unit {0}
Ends throws = Unit {0}
Ends too_many_rounds = ⊥

with_port-Ends :
    (z : Option ℤ) (continue : ℕ → Read)
    → ((n : ℕ) → Ends (continue n))
    → Ends (with_port z continue)
with_port-Ends none continue h = tt
with_port-Ends (some z) continue h = h (to_u16 z)

if-Ends : (b : Bool) (x y : Read) → Ends x → Ends y → Ends (if b then x else y)
if-Ends true x y hx hy = hx
if-Ends false x y hx hy = hy

read_loop-Ends :
    (rounds : ℕ) (args : List Bytes) (o : Options)
    → length args < rounds
    → Ends (read_loop rounds args o)
unfolding read_loop
read_loop-Ends zero args o enough = absurd (omega arith)
read_loop-Ends (suc rounds) [] o enough = tt
read_loop-Ends (suc rounds) (arg ∷ []) o enough = read_loop-Ends rounds [] o (omega arith)
read_loop-Ends (suc rounds) (arg ∷ value ∷ []) o enough =
    if-Ends (bytes_eq arg (codes "--port")) _ _
      (with_port-Ends (stoi value) _ (λ n. read_loop-Ends rounds [] _ (omega arith)))
      (read_loop-Ends rounds (value ∷ []) o (omega arith))
read_loop-Ends (suc rounds) (arg ∷ value ∷ second ∷ rest) o enough =
    if-Ends (bytes_eq arg (codes "--port")) _ _
      (with_port-Ends (stoi value) _ (λ n. read_loop-Ends rounds (second ∷ rest) _ (omega arith)))
      (if-Ends (bytes_eq arg (codes "--replicaof")) _ _
        (with_port-Ends (stoi second) _ (λ n. read_loop-Ends rounds rest _ (omega arith)))
        (read_loop-Ends rounds (value ∷ second ∷ rest) o (omega arith)))

-- The rounds are enough for any arguments.
read_arguments-Ends : (args : List Bytes) → Ends (read_arguments args)
unfolding read_arguments
read_arguments-Ends args = read_loop-Ends (suc (length args)) args defaults (omega arith)

stoi-digit :
    (c : ℕ) (s : Bytes) (n : ℕ)
    → is_digit c ≡ true
    → scan_number (c ∷ s) ≡ some (n, [])
    → n < 2 ^ 31
    → stoi (c ∷ s) ≡ some (pos n)
unfolding stoi skip_spaces
stoi-digit c s n d e h = ground arith

-- A number is read back from its print.
stoi-to_string : (n : ℕ) → n < 2 ^ 31 → stoi (to_string_u64 n) ≡ some (pos n)
unfolding to_string_u64
stoi-to_string n h =
    let (c, s, e, d) = to_digits_shape n n in
    let back : scan_number (c ∷ s) ≡ some (n, []) = rw (← e) (scan_number-to_string n) in
    rw e (stoi-digit c s n d back h)

abbrev replica_arguments : ℕ → Bytes → ℕ → List Bytes
replica_arguments port host replica_port =
    codes "--port"
    ∷ to_string_u64 port
    ∷ codes "--replicaof"
    ∷ host
    ∷ to_string_u64 replica_port
    ∷ []

-- A server that is told a port and a primary has these, and is a replica.
read_arguments-replica :
    (port : ℕ) (c : ℕ) (host : Bytes) (replica_port : ℕ)
    → port < 2 ^ 16
    → replica_port < 2 ^ 16
    → 0 < replica_port
    → (read_arguments (replica_arguments port (c ∷ host) replica_port)
        ≡ options (record { port = port; replica_host = c ∷ host; replica_port = replica_port }))
      × ((server_of (record {
        port = port;
        replica_host = c ∷ host;
        replica_port = replica_port;
      })).is_replica
          ≡ true)
unfolding read_arguments read_loop bytes_eq to_u64
read_arguments-replica port c host replica_port small small' there =
    let first : to_u16 (pos port) ≡ port = omega arith in
    let second : to_u16 (pos replica_port) ≡ replica_port = omega arith in
    (
      rw
          (
            stoi-to_string port (omega arith),
            stoi-to_string replica_port (omega arith),
            first,
            second,
          )
          refl,
      ground arith,
    )
