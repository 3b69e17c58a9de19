-- ===== src/Server/Recovery.antt =====
-- The replay of a primary's log at a restart (src/server/Server.cpp).
use distributed_in_memory_ke.Prelude.{
  ℕ, suc, ◌+◌, ◌≤◌, ◌<◌, ◌≡◌, ◌∙◌, ap, sym, refl, Bool, true, false, not, ◌&&◌, inl, List, [], ◌∷◌,
  ◌++◌, append-nil, arith, length, two63,
}
use distributed_in_memory_ke.Protocol.Value.{size, serialize_items}
use distributed_in_memory_ke.Protocol.RoundTrip.{IsFrames, size-le}
use distributed_in_memory_ke.Storage.Entry.{Platform}
use distributed_in_memory_ke.Storage.Meaning.{Contents, Shows, Unbounded}
use distributed_in_memory_ke.Net.Connection.{Connection}
use distributed_in_memory_ke.Server.State.{World}
use distributed_in_memory_ke.Server.Dispatch.{dispatch}
use distributed_in_memory_ke.Server.Client.{ClientEnvironment}
use distributed_in_memory_ke.Server.Replay.{
  Environment, replay_call, replay, finished, dispatch_all, replay-serialize,
}
use distributed_in_memory_ke.Server.Commands.{Command, request_of, meaning, dispatch-Shows}
use distributed_in_memory_ke.Server.Serving.{
  requests_of, meaning_all, NeverFalls, serve, Shows-later, serve-Logged,
}

bypassed : (is_replica : Bool) → (is_replica && not true) ≡ false
bypassed true = refl
bypassed false = refl

module _ (platform : Platform) (reserve_limit : ℕ) (is_replica : Bool) (env : Environment)
    (rises : NeverFalls env.clock) (bound : ℕ) (within : (n : ℕ) → env.clock n ≤ bound) where
  pub dispatch_all-Shows :
      (ds : List Command) (n since : ℕ) (v : World) (m : Contents)
      → Unbounded v.storage.shards v.storage.max_memory_bytes
      → Shows platform since v.storage m
      → since ≤ env.clock n
      → Shows platform bound
          (dispatch_all platform reserve_limit is_replica env n (requests_of ds) v).storage
          (meaning_all ds m)
  unfolding dispatch_all
  dispatch_all-Shows [] n since v m u shows later =
      let below = within n in Shows-later platform since bound v m (omega arith) shows
  dispatch_all-Shows (c ∷ ds) n since v m u shows later =
      let call = replay_call platform reserve_limit is_replica env n in
      let (u', shows') =
        dispatch-Shows platform call (bypassed is_replica) c since v m u shows later in
      dispatch_all-Shows ds (suc n) (env.clock n) (dispatch platform call (request_of c) v).0
        (meaning c m) u' shows' (rises n)

module _ (platform : Platform) (reserve_limit : ℕ) (conn : Connection) (is_replica : Bool)
    (env : ClientEnvironment) (restart : Environment) (rises : NeverFalls env.clock)
    (rises' : NeverFalls restart.clock) (bound : ℕ) (within : (n : ℕ) → env.clock n ≤ bound)
    (within' : (n : ℕ) → restart.clock n ≤ bound) where
  -- A restart recovers the state. A primary with an empty log serves commands SET, GET, DEL, INCR
  -- and DECR in any number, and the log that it has written is replayed on another engine; both
  -- engines start with the same contents and no deadlines, with a shard and no memory limit. Then
  -- the replay ends with nothing left, and from a time on that no clock has passed, both engines
  -- show for every key the value that the commands mean on the abstract map from keys to values,
  -- and no deadline. The clocks never fall, the requests are frames, and their prints are together
  -- shorter than 2 ^ 63 bytes and than the number of rounds, and no longer than the depth.
  pub replay-serve :
      (cs : List Command) (rounds depth : ℕ) (w v : World) (m : Contents)
      → IsFrames reserve_limit (requests_of cs)
      → Unbounded w.storage.shards w.storage.max_memory_bytes
      → Unbounded v.storage.shards v.storage.max_memory_bytes
      → Shows platform 0 w.storage m
      → Shows platform 0 v.storage m
      → w.aof ≡ record { is_open = true; file = [] }
      → length (serialize_items (requests_of cs)) < two63
      → length (serialize_items (requests_of cs)) ≤ depth
      → length (serialize_items (requests_of cs)) < rounds
      → Shows platform bound (serve platform env conn 0 cs w).storage (meaning_all cs m)
        × (restored : World) × (count : ℕ) × (replay platform reserve_limit is_replica restart
              rounds depth 0
              (serve platform env conn 0 cs w).aof.file
              v
            ≡ finished restored count [])
        × Shows platform bound restored.storage (meaning_all cs m)
  replay-serve cs rounds depth w v m oks u u' shows shows' fresh small deep long =
      let served = serve platform env conn 0 cs w in
      let (ds, oks', aof', le, all', seen) =
        serve-Logged platform reserve_limit env conn rises bound within cs 0 0 w m oks u
          (ap (λ a. a.is_open) fresh) shows (omega arith) in
      let file : served.aof.file ≡ serialize_items (requests_of ds) =
        ap (λ a. a.file) aof' ∙ ap (λ a. a.file ++ serialize_items (requests_of ds)) fresh in
      let vs = requests_of ds in
      let whole : serialize_items vs ++ [] ≡ served.aof.file =
        append-nil (serialize_items vs) ∙ sym file in
      let bytes = ap length whole in
      let bytes' = ap length file in
      (
        seen,
        dispatch_all platform reserve_limit is_replica restart 0 vs v,
        0 + size vs,
        rw (← whole) (
            replay-serialize platform reserve_limit is_replica restart vs rounds depth 0 [] v oks'
              (inl refl) (omega arith) (omega arith) (omega (arith, size-le vs))),
        rw (← all') (
            dispatch_all-Shows platform reserve_limit is_replica restart rises' bound within' ds 0 0
              v m u' shows' (omega arith)),
      )
