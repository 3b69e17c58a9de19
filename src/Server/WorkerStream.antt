-- ===== src/Server/WorkerStream.antt =====
-- A replica that connects again and again (src/server/Server.cpp).
use distributed_in_memory_ke.Prelude.{
  ℕ, ◌+◌, ◌≡◌, ◌⊎◌, ◌∙◌, ap, sym, refl, Bool, true, false, inl, inr, List, [], ◌∷◌, ◌++◌, ◌<◌,
  append-nil, append_assoc, arith, Bytes, All,
}
use mathlib.Core.List.{map}
use distributed_in_memory_ke.Protocol.Value.{RespValues, nil, cons, size, serialize_items}
use distributed_in_memory_ke.Protocol.Sequence.{
  append_values, serialize_items-append_values, size-append_values,
}
use distributed_in_memory_ke.Protocol.RoundTrip.{IsFrames}
use distributed_in_memory_ke.Storage.Entry.{Platform}
use distributed_in_memory_ke.Net.Connection.{wrote, construct, holds_fd, write_bytes}
use distributed_in_memory_ke.Server.State.{World}
use distributed_in_memory_ke.Server.Chunks.{IsOrderly}
use distributed_in_memory_ke.Server.FrameLoop.{joined}
use distributed_in_memory_ke.Server.Greeting.{greeted, parse-nil}
use distributed_in_memory_ke.Server.Replay.{Environment, dispatch_all}
use distributed_in_memory_ke.Server.Replica.{Replica, continues, new_connection, receive}
use distributed_in_memory_ke.Server.ReplicaStream.{receive-serialize}
use distributed_in_memory_ke.Server.CatchUp.{log_raw-open}
use distributed_in_memory_ke.Server.Serving.{nothing_logged}
use distributed_in_memory_ke.Server.Worker.{Attempt, is_positive, greet, attempt, work}

-- An attempt that does not get a connection.
abbrev pub Fails : Attempt → Type 0
Fails a =
    (holds_fd a.socket ≡ false) ⊎ (is_positive a.address ≡ false) ⊎ (holds_fd a.connected ≡ false)

-- An attempt that gets one, on which every text is written in full.
abbrev pub Connects : Attempt → Type 0
Connects a =
    (holds_fd a.socket ≡ true)
    × (is_positive a.address ≡ true)
    × (holds_fd a.connected ≡ true)
    × ((text : Bytes)
        → (total : ℕ) × (write_bytes a.writer (construct a.socket) text ≡ wrote true total))

abbrev pub all_values : List (Attempt × RespValues) → RespValues
all_values [] = nil
all_values ((a, vs) ∷ rounds) = append_values vs (all_values rounds)

module _ (platform : Platform) (reserve_limit depth : ℕ) (is_replica : Bool)
    (env : Environment) where
  -- An attempt fails and delivers nothing, or it connects and delivers printed frames.
  abbrev pub IsRound : Attempt × RespValues → Type 0
  IsRound (a, vs) =
      (Fails a × (vs ≡ nil))
      ⊎ (Connects a
          × (joined a.chunks ≡ greeted (serialize_items vs))
          × IsOrderly depth (serialize_items vs)
          × IsFrames reserve_limit vs)

  -- The replica after some frames.
  abbrev pub HasApplied : RespValues → Replica → Replica → Type 0
  HasApplied vs r r' =
      (r'.aof ≡ record { is_open = true; file = r.aof.file ++ serialize_items vs })
      × (r'.world ≡ dispatch_all platform reserve_limit is_replica env r.applied vs r.world)
      × (r'.applied ≡ r.applied + size vs)

  dispatch_all-append_values :
      (vs ws : RespValues) (n : ℕ) (w : World)
      → dispatch_all platform reserve_limit is_replica env n (append_values vs ws) w
        ≡ dispatch_all platform reserve_limit is_replica env
            (n + size vs)
            ws
            (dispatch_all platform reserve_limit is_replica env n vs w)
  unfolding dispatch_all
  dispatch_all-append_values nil ws n w =
      ap (λ k. dispatch_all platform reserve_limit is_replica env k ws w) (omega arith)
  dispatch_all-append_values (cons v vs) ws n w =
      dispatch_all-append_values vs ws _ _
      ∙ ap
          (λ k.
            dispatch_all platform reserve_limit is_replica env k ws
              (dispatch_all platform reserve_limit is_replica env n (cons v vs) w))
          (omega arith)

  HasApplied-trans :
      (vs ws : RespValues) (r r' r'' : Replica)
      → HasApplied vs r r'
      → HasApplied ws r' r''
      → HasApplied (append_values vs ws) r r''
  HasApplied-trans vs ws r r' r'' (aof, world, count) (aof', world', count') = (
    aof'
        ∙ rw (aof, serialize_items-append_values vs ws)
            (ap (λ s. record { is_open = true; file = s })
              (append_assoc r.aof.file (serialize_items vs) (serialize_items ws))),
    world' ∙ rw (world, count) (sym (dispatch_all-append_values vs ws r.applied r.world)),
    rw (size-append_values vs ws) (omega arith),
  )

  attempt-Fails :
      (a : Attempt) (r : Replica)
      → Fails a
      → (attempt platform reserve_limit depth is_replica env a r).0 ≡ continues r
  unfolding attempt
  attempt-Fails a r (inl none') = rw none' refl
  attempt-Fails a r (inr (inl none')) = ground arith
  attempt-Fails a r (inr (inr none')) = ground arith

  attempt-Connects :
      (a : Attempt) (r : Replica)
      → Connects a
      → (attempt platform reserve_limit depth is_replica env a r).0
        ≡ receive platform reserve_limit depth is_replica env a.chunks (new_connection r)
  unfolding attempt greet
  attempt-Connects a r (socket, address, connected, writes) =
      rw (socket, address, connected, (writes _).1) refl

  -- A round, and what it leaves of the log and the world.
  attempt-IsRound :
      (a : Attempt) (vs : RespValues) (r : Replica)
      → 0 < depth
      → r.aof.is_open ≡ true
      → IsRound (a, vs)
      → (r' : Replica) × ((attempt platform reserve_limit depth is_replica env a r).0
          ≡ continues r')
        × HasApplied vs r r'
  unfolding dispatch_all serialize_items
  attempt-IsRound a vs r deep open' (inl (fails, none')) =
      (r, attempt-Fails a r fails, rw none' (nothing_logged r.aof open', refl, omega arith))
  attempt-IsRound a vs r deep open' (inr (connects, stream, ok, oks)) =
      let whole = append-nil (serialize_items vs) in
      (
        _,
        attempt-Connects a r connects
            ∙ receive-serialize platform reserve_limit depth is_replica env a.chunks vs [] r
                (rw whole stream) (rw whole ok) oks (parse-nil reserve_limit depth deep),
        (rw whole (log_raw-open (serialize_items vs) r.aof open'), refl, refl),
      )

  -- The replica worker goes on through failures. Whatever attempts it makes, each of which either
  -- gets no connection or gets one that writes every text and delivers the greeting and printed
  -- frames, it ends with all the delivered frames dispatched once and in order, and appended to its
  -- open log. What a connection delivers is an orderly buffer: below 2 ^ 63 - 2 bytes and the depth
  -- of the parser, with no minus sign behind a `$`.
  pub work-IsRound :
      (rounds : List (Attempt × RespValues)) (r : Replica)
      → 0 < depth
      → r.aof.is_open ≡ true
      → All IsRound rounds
      → (r' : Replica) × (work platform reserve_limit depth is_replica env
            (map (λ round. round.0) rounds)
            r
          ≡ continues r')
        × HasApplied (all_values rounds) r r'
  unfolding dispatch_all serialize_items work
  work-IsRound [] r deep open' h = (r, refl, (nothing_logged r.aof open', refl, omega arith))
  work-IsRound ((a, vs) ∷ rounds) r deep open' (h, hs) =
      let (r', here, applied) = attempt-IsRound a vs r deep open' h in
      let open'' : r'.aof.is_open ≡ true = ap (λ l. l.is_open) applied.0 in
      let (r'', there, applied') = work-IsRound rounds r' deep open'' hs in
      (
        r'',
        rw (here, work) there,
        HasApplied-trans vs (all_values rounds) r r' r'' applied applied',
      )
