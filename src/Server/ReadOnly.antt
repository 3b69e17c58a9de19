-- ===== src/Server/ReadOnly.antt =====
-- What a read-only server lets clients do (src/server/CommandDispatcher.cpp).
use distributed_in_memory_ke.Prelude.{
  ℕ, ◌+◌, ◌≡◌, refl, Bool, true, false, not, ◌&&◌, ◌||◌, arith, inl, inr, Option-cases, Bytes,
  codes, bytes_eq, ltb, ◌==◌,
}
use mathlib.Core.List.{map}
use distributed_in_memory_ke.Std.Decimal.{from_chars_i64, from_chars_u64}
use distributed_in_memory_ke.Protocol.Value.{RespValue, RespValues, size}
use distributed_in_memory_ke.Storage.Entry.{Platform}
use distributed_in_memory_ke.Storage.Live.{live, HasShards}
use distributed_in_memory_ke.Storage.Reads.{get_views, exists_views}
use distributed_in_memory_ke.Storage.Deadlines.{pttl_views}
use distributed_in_memory_ke.Server.Request.{arg, args_from, to_upper}
use distributed_in_memory_ke.Server.State.{World, Call, count_command}
use distributed_in_memory_ke.Server.Handlers.{
  Outcome, handle_ping, handle_echo, handle_quit, handle_info, handle_config, handle_psync,
}
use distributed_in_memory_ke.Server.Keys.{handle_get, handle_exists, handle_ttl}
use distributed_in_memory_ke.Server.Dispatch.{dispatch}
use distributed_in_memory_ke.Server.Branches.{if-cases, Commands, dispatch-cases}

-- The log is as before, and no client sees a difference, at the time or any span after it.
abbrev pub Unseen : Platform → ℕ → World → Outcome → Type 0
Unseen platform now w out =
    (out.0.aof ≡ w.aof)
    × ((span : ℕ) (j : Bytes)
        → live platform (now + span) out.0.storage j ≡ live platform (now + span) w.storage j)

module _ (platform : Platform) (call : Call) (vs : RespValues) (w : World) where
  ping-Unseen : Unseen platform call.now w (handle_ping call vs w)
  unfolding handle_ping
  ping-Unseen =
      if-cases (Unseen platform call.now w) (ltb 2 (size vs)) (λ is. (refl, λ span j. refl))
        λ f.
          if-cases (Unseen platform call.now w) (size vs == 2) (λ is. (refl, λ span j. refl))
            (λ f. (refl, λ span j. refl))

  echo-Unseen : Unseen platform call.now w (handle_echo call vs w)
  unfolding handle_echo
  echo-Unseen =
      if-cases (Unseen platform call.now w) (not (size vs == 2)) (λ is. (refl, λ span j. refl))
        (λ f. (refl, λ span j. refl))

  quit-Unseen : Unseen platform call.now w (handle_quit call vs w)
  unfolding handle_quit
  quit-Unseen =
      if-cases (Unseen platform call.now w) (not (size vs == 1)) (λ is. (refl, λ span j. refl))
        (λ f. (refl, λ span j. refl))

  info-Unseen : Unseen platform call.now w (handle_info call vs w)
  unfolding handle_info
  info-Unseen =
      if-cases (Unseen platform call.now w) (ltb 2 (size vs)) (λ is. (refl, λ span j. refl))
        (λ f. (refl, λ span j. refl))

  config-Unseen : Unseen platform call.now w (handle_config call vs w)
  unfolding handle_config
  config-Unseen =
      if-cases (Unseen platform call.now w)
        (not (size vs == 4) || not (bytes_eq (to_upper (arg vs 1)) (codes "SET")))
        (λ is. (refl, λ span j. refl))
        λ f.
          if-cases (Unseen platform call.now w) (bytes_eq (to_upper (arg vs 2)) (codes "MAXMEMORY"))
            (λ t. elim (Option-cases (from_chars_i64 (arg vs 3))) [
              | inl missing ↦ rw missing (refl, λ span j. refl)
              | inr (read, found) ↦ rw found (refl, λ span j. refl)
            ])
            (λ f. (refl, λ span j. refl))

  psync-Unseen : Unseen platform call.now w (handle_psync call vs w)
  unfolding handle_psync
  psync-Unseen =
      if-cases (Unseen platform call.now w) (not (size vs == 2)) (λ is. (refl, λ span j. refl))
        λ f. elim (Option-cases (from_chars_u64 (arg vs 1))) [
          | inl missing ↦ rw missing (refl, λ span j. refl)
          | inr (read, found) ↦ rw found (refl, λ span j. refl)
        ]

  module _ (h : HasShards w.storage) where
    get-Unseen : Unseen platform call.now w (handle_get platform call vs w)
    unfolding handle_get
    get-Unseen =
        if-cases (Unseen platform call.now w) (not (size vs == 2)) (λ is. (refl, λ span j. refl))
          (λ f. (
            refl,
            λ span j.
                (get_views platform call.now (platform.make (arg vs 1)) w.storage h).1
                  (call.now + span) j (omega arith),
          ))

    exists-Unseen : Unseen platform call.now w (handle_exists platform call vs w)
    unfolding handle_exists
    exists-Unseen =
        if-cases (Unseen platform call.now w) (ltb (size vs) 2) (λ is. (refl, λ span j. refl))
          (λ f. (
            refl,
            λ span j.
                (exists_views platform call.now (map platform.make (args_from 1 vs)) w.storage h).1
                  (call.now + span) j (omega arith),
          ))

    ttl-Unseen : (cmd : Bytes) → Unseen platform call.now w (handle_ttl platform call vs w cmd)
    unfolding handle_ttl
    ttl-Unseen cmd =
        if-cases (Unseen platform call.now w) (not (size vs == 2)) (λ is. (refl, λ span j. refl))
          (λ f. (
            refl,
            λ span j.
                (pttl_views platform call.now (platform.make (arg vs 1)) w.storage h).1
                  (call.now + span) j (omega arith),
          ))

    -- Every command but the mutating ones leaves the log and what clients see as they are.
    pub commands-Unseen : Commands platform call vs w (Unseen platform call.now w)
    commands-Unseen = record {
      ping = ping-Unseen;
      echo = echo-Unseen;
      quit = quit-Unseen;
      info = info-Unseen;
      config = config-Unseen;
      psync = psync-Unseen;
      get = get-Unseen;
      exists = exists-Unseen;
      ttl = ttl-Unseen;
      refused = λ message. (refl, λ span j. refl);
    }

locked_open :
    (read_only bypass : Bool)
    → read_only ≡ true
    → bypass ≡ false
    → (read_only && not bypass) ≡ false
    → ⊥
locked_open read_only bypass locked checked open' = ground arith

-- A read-only server with a shard, on a call that does not bypass the check, changes nothing for
-- its clients: whatever the request, the log is as before, and at the time of the call and any span
-- after it every key has the value and the deadline that it had.
pub dispatch-read_only :
    (platform : Platform) (call : Call) (request : RespValue) (w : World)
    → HasShards w.storage
    → call.is_read_only ≡ true
    → call.bypass_readonly ≡ false
    → ((dispatch platform call request w).0.aof ≡ w.aof)
      × ((span : ℕ) (j : Bytes)
          → live platform (call.now + span) (dispatch platform call request w).0.storage j
            ≡ live platform (call.now + span) w.storage j)
dispatch-read_only platform call request w h locked checked =
    dispatch-cases platform call (Unseen platform call.now w) request w
      (λ vs. commands-Unseen platform call vs (count_command w) h)
      (λ vs e open'.
        absurd (locked_open call.is_read_only call.bypass_readonly locked checked open'))
