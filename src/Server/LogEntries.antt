-- ===== src/Server/LogEntries.antt =====
-- What a request (src/server/CommandDispatcher.cpp) can do to the log, on any server and in any call.
use distributed_in_memory_ke.Prelude.{
  ℕ, ◌≡◌, ◌⊎◌, ap, sym, refl, Bool, true, false, not, ◌&&◌, ◌||◌, inl, inr, Option-cases,
  if◌then◌else◌, arith, Bytes, codes, bytes_eq, ltb, ◌==◌, to_u64,
}
use mathlib.Core.List.{map}
use distributed_in_memory_ke.Std.Decimal.{from_chars_i64, from_chars_u64}
use distributed_in_memory_ke.Protocol.Value.{RespValue, RespValues, array, size, serialize}
use distributed_in_memory_ke.Storage.Entry.{Platform, add_size}
use distributed_in_memory_ke.Storage.Operations.{
  set, del, incr, decr, expire, expire_at, expire_to, persist,
}
use distributed_in_memory_ke.Storage.AofLogger.{AofLogger, log}
use distributed_in_memory_ke.Server.Request.{arg, args_from, to_upper}
use distributed_in_memory_ke.Server.State.{World, Call, count_command, log_unless_bypassed}
use distributed_in_memory_ke.Server.Handlers.{
  Outcome, handle_ping, handle_echo, handle_quit, handle_info, handle_config, handle_psync,
}
use distributed_in_memory_ke.Server.Keys.{
  pexpireat_command, offset_of, handle_set, handle_get, handle_del, handle_exists, handle_incr,
  handle_decr, handle_expire, handle_pexpireat, handle_ttl, handle_persist,
}
use distributed_in_memory_ke.Server.Dispatch.{dispatch}
use distributed_in_memory_ke.Server.Branches.{
  if-cases, is_relative, Commands, Mutations, dispatch-cases,
}
use distributed_in_memory_ke.Server.Logging.{LogsFor}

-- The log is as before, or one frame has been logged.
abbrev pub Appends : ℕ → RespValue → AofLogger → AofLogger → Type 0
Appends now_log request before after =
    (after ≡ before)
    ⊎ ((logged : RespValue) × LogsFor now_log request logged
        × (after ≡ log (serialize logged) before))

-- The log is as before or one frame longer, it is as before where the call has none, and no client is
-- counted.
abbrev Logged : RespValue → Call → World → World → Type 0
Logged request call w w' =
    Appends call.now_log request w.aof w'.aof
    × (w'.connected_clients ≡ w.connected_clients)
    × (call.has_aof ≡ false → w'.aof ≡ w.aof)

-- A frame goes to the log, or the call does not log.
log_unless_bypassed-Logged :
    (request logged : RespValue) (call : Call) (w w' : World)
    → LogsFor call.now_log request logged
    → w'.aof ≡ w.aof
    → w'.connected_clients ≡ w.connected_clients
    → Logged request call w (log_unless_bypassed call (serialize logged) w')
unfolding log_unless_bypassed
log_unless_bypassed-Logged request logged call w w' allowed same counted =
    if-cases (Logged request call w) (call.has_aof && not call.bypass_readonly)
      (λ is. (
        inr (logged, allowed, ap (log (serialize logged)) same),
        counted,
        λ off. absurd (ground (arith, is, off)),
      ))
      (λ f. (inl same, counted, λ off. same))

conditional-Logged :
    (request logged : RespValue) (call : Call) (b : Bool) (w w' : World)
    → LogsFor call.now_log request logged
    → w'.aof ≡ w.aof
    → w'.connected_clients ≡ w.connected_clients
    → Logged request call w (if b then log_unless_bypassed call (serialize logged) w' else w')
conditional-Logged request logged call true w w' allowed same counted =
    log_unless_bypassed-Logged request logged call w w' allowed same counted
conditional-Logged request logged call false w w' allowed same counted =
    (inl same, counted, λ off. same)

module _ (platform : Platform) (call : Call) (request : RespValue) (vs : RespValues)
    (w : World) where
  abbrev Fine : Outcome → Type 0
  Fine out = Logged request call w out.0

  config-Fine : Fine (handle_config call vs w)
  unfolding handle_config
  config-Fine =
      if-cases Fine (not (size vs == 4) || not (bytes_eq (to_upper (arg vs 1)) (codes "SET")))
        (λ is. (inl refl, refl, λ off. refl))
        λ f.
          if-cases Fine (bytes_eq (to_upper (arg vs 2)) (codes "MAXMEMORY"))
            (λ is. elim (Option-cases (from_chars_i64 (arg vs 3))) [
              | inl missing ↦ rw missing (inl refl, refl, λ off. refl)
              | inr ((val, rest), found) ↦ rw found (inl refl, refl, λ off. refl)
            ])
            (λ f. (inl refl, refl, λ off. refl))

  psync-Fine : Fine (handle_psync call vs w)
  unfolding handle_psync
  psync-Fine =
      if-cases Fine (not (size vs == 2)) (λ is. (inl refl, refl, λ off. refl))
        λ f. elim (Option-cases (from_chars_u64 (arg vs 1))) [
          | inl missing ↦ rw missing (inl refl, refl, λ off. refl)
          | inr ((offset, rest), found) ↦ rw found (inl refl, refl, λ off. refl)
        ]

  ping-Fine : Fine (handle_ping call vs w)
  unfolding handle_ping
  ping-Fine =
      if-cases Fine (ltb 2 (size vs)) (λ is. (inl refl, refl, λ off. refl))
        (λ f.
          if-cases Fine (size vs == 2) (λ is. (inl refl, refl, λ off. refl))
            (λ f. (inl refl, refl, λ off. refl)))

  echo-Fine : Fine (handle_echo call vs w)
  unfolding handle_echo
  echo-Fine =
      if-cases Fine (not (size vs == 2)) (λ is. (inl refl, refl, λ off. refl))
        (λ f. (inl refl, refl, λ off. refl))

  quit-Fine : Fine (handle_quit call vs w)
  unfolding handle_quit
  quit-Fine =
      if-cases Fine (not (size vs == 1)) (λ is. (inl refl, refl, λ off. refl))
        (λ f. (inl refl, refl, λ off. refl))

  info-Fine : Fine (handle_info call vs w)
  unfolding handle_info
  info-Fine =
      if-cases Fine (ltb 2 (size vs)) (λ is. (inl refl, refl, λ off. refl))
        (λ f. (inl refl, refl, λ off. refl))

  get-Fine : Fine (handle_get platform call vs w)
  unfolding handle_get
  get-Fine =
      if-cases Fine (not (size vs == 2)) (λ is. (inl refl, refl, λ off. refl))
        (λ f. (inl refl, refl, λ off. refl))

  exists-Fine : Fine (handle_exists platform call vs w)
  unfolding handle_exists
  exists-Fine =
      if-cases Fine (ltb (size vs) 2) (λ is. (inl refl, refl, λ off. refl))
        (λ f. (inl refl, refl, λ off. refl))

  ttl-Fine : (cmd : Bytes) → Fine (handle_ttl platform call vs w cmd)
  unfolding handle_ttl
  ttl-Fine cmd =
      if-cases Fine (not (size vs == 2)) (λ is. (inl refl, refl, λ off. refl))
        (λ f. (inl refl, refl, λ off. refl))

  commands-Fine : Commands platform call vs w Fine
  commands-Fine = record {
    ping = ping-Fine;
    echo = echo-Fine;
    quit = quit-Fine;
    info = info-Fine;
    config = config-Fine;
    psync = psync-Fine;
    get = get-Fine;
    exists = exists-Fine;
    ttl = ttl-Fine;
    refused = λ message. (inl refl, refl, λ off. refl);
  }

  module _ (is_array : request ≡ array vs) where
    abbrev IsAbsolute : Type 0
    IsAbsolute = is_relative (to_upper (arg vs 0)) ≡ false

    itself : IsAbsolute → LogsFor call.now_log request (array vs)
    itself named = (vs, is_array, inl (sym is_array, named))

    set-Fine : IsAbsolute → Fine (handle_set platform call vs w)
    unfolding handle_set
    set-Fine named =
        let r =
          set platform call.sampler call.now (platform.make (arg vs 1)) (platform.make (arg vs 2))
            w.storage in
        if-cases Fine (ltb (size vs) 3) (λ is. (inl refl, refl, λ off. refl))
          (λ f.
            if-cases Fine r.1
              (λ is.
                log_unless_bypassed-Logged request (array vs) call w _ (itself named) refl refl)
              (λ f. (inl refl, refl, λ off. refl)))

    del-Fine : IsAbsolute → Fine (handle_del platform call vs w)
    unfolding handle_del
    del-Fine named =
        let keys = map platform.make (args_from 1 vs) in
        if-cases Fine (ltb (size vs) 2) (λ is. (inl refl, refl, λ off. refl))
          (λ f.
            conditional-Logged request (array vs) call (ltb 0 (del platform keys w.storage).1) w _
              (itself named) refl refl)

    incr-Fine : IsAbsolute → Fine (handle_incr platform call vs w)
    unfolding handle_incr
    incr-Fine named =
        let key = platform.make (arg vs 1) in
        if-cases Fine (not (size vs == 2)) (λ is. (inl refl, refl, λ off. refl))
          λ f. elim (Option-cases (incr platform call.sampler call.now key w.storage).1) [
            | inl missing ↦ rw missing (inl refl, refl, λ off. refl)
            | inr (val, found) ↦
                rw found
                  (log_unless_bypassed-Logged request (array vs) call w _ (itself named) refl refl)
          ]

    decr-Fine : IsAbsolute → Fine (handle_decr platform call vs w)
    unfolding handle_decr
    decr-Fine named =
        let key = platform.make (arg vs 1) in
        if-cases Fine (not (size vs == 2)) (λ is. (inl refl, refl, λ off. refl))
          λ f. elim (Option-cases (decr platform call.sampler call.now key w.storage).1) [
            | inl missing ↦ rw missing (inl refl, refl, λ off. refl)
            | inr (val, found) ↦
                rw found
                  (log_unless_bypassed-Logged request (array vs) call w _ (itself named) refl refl)
          ]

    expire-Fine :
        (cmd : Bytes)
        → cmd ≡ to_upper (arg vs 0)
        → is_relative (to_upper (arg vs 0)) ≡ true
        → Fine (handle_expire platform call vs w cmd)
    unfolding handle_expire expire
    expire-Fine cmd name named =
        let key = platform.make (arg vs 1) in
        if-cases Fine (not (size vs == 3)) (λ is. (inl refl, refl, λ off. refl))
          λ f. elim (Option-cases (from_chars_i64 (arg vs 2))) [
            | inl missing ↦ rw missing (inl refl, refl, λ off. refl)
            | inr ((time_val, rest), found) ↦
                let offset = to_u64 (offset_of cmd time_val) in
                let logged_deadline = add_size call.now_log offset in
                rw found (
                  conditional-Logged request (pexpireat_command (arg vs 1) logged_deadline) call
                    (expire_to platform call.now key (add_size call.now offset) w.storage).1 w _
                    (
                      vs,
                      is_array,
                      inr (
                        named,
                        time_val,
                        rest,
                        found,
                        ap
                            (λ c.
                              pexpireat_command (arg vs 1)
                                (add_size call.now_log (to_u64 (offset_of c time_val))))
                            name,
                      ),
                    )
                    refl refl)
          ]

    pexpireat-Fine : IsAbsolute → Fine (handle_pexpireat platform call vs w)
    unfolding handle_pexpireat expire_at
    pexpireat-Fine named =
        let key = platform.make (arg vs 1) in
        if-cases Fine (not (size vs == 3)) (λ is. (inl refl, refl, λ off. refl))
          λ f. elim (Option-cases (from_chars_u64 (arg vs 2))) [
            | inl missing ↦ rw missing (inl refl, refl, λ off. refl)
            | inr ((deadline, rest), found) ↦ rw found (
                conditional-Logged request (array vs) call
                  (expire_to platform call.now key deadline w.storage).1 w _ (itself named) refl
                  refl)
          ]

    persist-Fine : IsAbsolute → Fine (handle_persist platform call vs w)
    unfolding handle_persist
    persist-Fine named =
        let key = platform.make (arg vs 1) in
        if-cases Fine (not (size vs == 2)) (λ is. (inl refl, refl, λ off. refl))
          (λ f.
            conditional-Logged request (array vs) call (persist platform call.now key w.storage).1 w
              _ (itself named) refl refl)

    mutations-Fine : Mutations platform call vs w Fine
    mutations-Fine = record {
      set = set-Fine;
      del = del-Fine;
      incr = incr-Fine;
      decr = decr-Fine;
      expire = expire-Fine (to_upper (arg vs 0)) refl;
      pexpireat = pexpireat-Fine;
      persist = persist-Fine;
    }

module _ (platform : Platform) (call : Call) (request : RespValue) (w : World) where
  dispatch-Logged : Logged request call w (dispatch platform call request w).0
  dispatch-Logged =
      dispatch-cases platform call (λ out. Logged request call w out.0) request w
        (λ vs. commands-Fine platform call request vs (count_command w))
        (λ vs e open'. mutations-Fine platform call request vs (count_command w) e)

  -- Whatever the request and the call, one frame at most is logged: the request or a PEXPIREAT.
  pub dispatch-Appends : Appends call.now_log request w.aof (dispatch platform call request w).0.aof
  dispatch-Appends = dispatch-Logged.0

  -- No request connects or disconnects a client.
  pub dispatch-connected_clients :
      (dispatch platform call request w).0.connected_clients ≡ w.connected_clients
  dispatch-connected_clients = dispatch-Logged.1

  -- Where there is no log, none is written.
  pub dispatch-silent : call.has_aof ≡ false → (dispatch platform call request w).0.aof ≡ w.aof
  dispatch-silent = dispatch-Logged.2
