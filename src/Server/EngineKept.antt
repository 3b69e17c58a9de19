-- ===== src/Server/EngineKept.antt =====
-- What the requests of a client (src/server/CommandDispatcher.cpp) keep of the storage engine.
use distributed_in_memory_ke.Prelude.{
  ℕ, List, Bool, true, false, not, ◌&&◌, ◌||◌, inl, inr, Option-cases, if◌then◌else◌, Bytes, codes,
  bytes_eq, ltb, ◌==◌, to_u64,
}
use mathlib.Core.List.{map}
use distributed_in_memory_ke.Std.Decimal.{from_chars_i64, from_chars_u64}
use distributed_in_memory_ke.Protocol.Value.{RespValue, RespValues, size}
use distributed_in_memory_ke.Storage.Entry.{Platform, add_size}
use distributed_in_memory_ke.Storage.Operations.{
  set, get, del, exists, incr, decr, expire, expire_at, expire_to, pttl, persist,
}
use distributed_in_memory_ke.Storage.Evict.{Engine, Sampler, set_max_memory}
use distributed_in_memory_ke.Server.Request.{arg, args_from, to_upper}
use distributed_in_memory_ke.Server.State.{World, Call, count_command, log_unless_bypassed}
use distributed_in_memory_ke.Server.Handlers.{
  Outcome, handle_ping, handle_echo, handle_quit, handle_info, handle_config, handle_psync,
}
use distributed_in_memory_ke.Server.Keys.{
  offset_of, handle_set, handle_get, handle_del, handle_exists, handle_incr, handle_decr,
  handle_expire, handle_pexpireat, handle_ttl, handle_persist,
}
use distributed_in_memory_ke.Server.Dispatch.{dispatch}
use distributed_in_memory_ke.Server.Branches.{if-cases, Commands, Mutations, dispatch-cases}

-- What the operations of an engine make of one property of it: another, or the same. The keys and values
-- are built from the texts of a request.
pub record Keeps (platform : Platform) (Q R : Engine → Type 0) : Type 0 where
  pub same : (e : Engine) → Q e → R e
  pub limit : (bytes : ℕ) (e : Engine) → Q e → R (set_max_memory bytes e)
  pub set :
      (sampler : Sampler) (now : ℕ) (k s : Bytes) (e : Engine)
      → Q e
      → R (set platform sampler now (platform.make k) (platform.make s) e).0
  pub get : (now : ℕ) (k : Bytes) (e : Engine) → Q e → R (get platform now (platform.make k) e).0
  pub exists :
      (now : ℕ) (ks : List Bytes) (e : Engine)
      → Q e
      → R (exists platform now (map platform.make ks) e).0
  pub del : (ks : List Bytes) (e : Engine) → Q e → R (del platform (map platform.make ks) e).0
  pub incr :
      (sampler : Sampler) (now : ℕ) (k : Bytes) (e : Engine)
      → Q e
      → R (incr platform sampler now (platform.make k) e).0
  pub decr :
      (sampler : Sampler) (now : ℕ) (k : Bytes) (e : Engine)
      → Q e
      → R (decr platform sampler now (platform.make k) e).0
  pub expire_to :
      (now : ℕ) (k : Bytes) (deadline : ℕ) (e : Engine)
      → Q e
      → R (expire_to platform now (platform.make k) deadline e).0
  pub pttl : (now : ℕ) (k : Bytes) (e : Engine) → Q e → R (pttl platform now (platform.make k) e).0
  pub persist :
      (now : ℕ) (k : Bytes) (e : Engine) → Q e → R (persist platform now (platform.make k) e).0

module _ (platform : Platform) (Q R : Engine → Type 0) (kept : Keeps platform Q R) where
  abbrev Fine : Outcome → Type 0
  Fine out = R out.0.storage

  -- What is logged does not reach the engine.
  logged :
      (call : Call) (text : Bytes) (w : World)
      → R w.storage
      → R (log_unless_bypassed call text w).storage
  unfolding log_unless_bypassed
  logged call text w u =
      if-cases (λ (w' : World). R w'.storage) (call.has_aof && not call.bypass_readonly) (λ is. u)
        (λ f. u)

  either : (b : Bool) (w w' : World) → R w.storage → R w'.storage → R (if b then w else w').storage
  either true w w' u u' = u
  either false w w' u u' = u'

  module _ (call : Call) (vs : RespValues) (w : World) (u : Q w.storage) where
    same : R w.storage
    same = kept.same w.storage u

    config-Fine : Fine (handle_config call vs w)
    unfolding handle_config
    config-Fine =
        if-cases Fine (not (size vs == 4) || not (bytes_eq (to_upper (arg vs 1)) (codes "SET")))
          (λ is. same)
          λ f.
            if-cases Fine (bytes_eq (to_upper (arg vs 2)) (codes "MAXMEMORY"))
              (λ is. elim (Option-cases (from_chars_i64 (arg vs 3))) [
                | inl missing ↦ rw missing same
                | inr ((val, rest), found) ↦ rw found (kept.limit (to_u64 val) w.storage u)
              ])
              (λ f. same)

    psync-Fine : Fine (handle_psync call vs w)
    unfolding handle_psync
    psync-Fine =
        if-cases Fine (not (size vs == 2)) (λ is. same)
          λ f. elim (Option-cases (from_chars_u64 (arg vs 1))) [
            | inl missing ↦ rw missing same
            | inr ((offset, rest), found) ↦ rw found same
          ]

    ping-Fine : Fine (handle_ping call vs w)
    unfolding handle_ping
    ping-Fine =
        if-cases Fine (ltb 2 (size vs)) (λ is. same)
          (λ f. if-cases Fine (size vs == 2) (λ is. same) (λ f. same))

    echo-Fine : Fine (handle_echo call vs w)
    unfolding handle_echo
    echo-Fine = if-cases Fine (not (size vs == 2)) (λ is. same) (λ f. same)

    quit-Fine : Fine (handle_quit call vs w)
    unfolding handle_quit
    quit-Fine = if-cases Fine (not (size vs == 1)) (λ is. same) (λ f. same)

    info-Fine : Fine (handle_info call vs w)
    unfolding handle_info
    info-Fine = if-cases Fine (ltb 2 (size vs)) (λ is. same) (λ f. same)

    get-Fine : Fine (handle_get platform call vs w)
    unfolding handle_get
    get-Fine =
        if-cases Fine (not (size vs == 2)) (λ is. same)
          (λ f. kept.get call.now (arg vs 1) w.storage u)

    exists-Fine : Fine (handle_exists platform call vs w)
    unfolding handle_exists
    exists-Fine =
        if-cases Fine (ltb (size vs) 2) (λ is. same)
          (λ f. kept.exists call.now (args_from 1 vs) w.storage u)

    ttl-Fine : (cmd : Bytes) → Fine (handle_ttl platform call vs w cmd)
    unfolding handle_ttl
    ttl-Fine cmd =
        if-cases Fine (not (size vs == 2)) (λ is. same)
          (λ f. kept.pttl call.now (arg vs 1) w.storage u)

    commands-Fine : Commands platform call vs w Fine
    commands-Fine = record {
      ping = ping-Fine;
      echo = echo-Fine;
      quit = quit-Fine;
      info = info-Fine;
      config = config-Fine;
      psync = psync-Fine;
      get = get-Fine;
      exists = exists-Fine;
      ttl = ttl-Fine;
      refused = λ message. same;
    }

    set-Fine : Fine (handle_set platform call vs w)
    unfolding handle_set
    set-Fine =
        let r =
          set platform call.sampler call.now (platform.make (arg vs 1)) (platform.make (arg vs 2))
            w.storage in
        let done = kept.set call.sampler call.now (arg vs 1) (arg vs 2) w.storage u in
        if-cases Fine (ltb (size vs) 3) (λ is. same)
          (λ f. if-cases Fine r.1 (λ is. logged call _ _ done) (λ f. done))

    del-Fine : Fine (handle_del platform call vs w)
    unfolding handle_del
    del-Fine =
        let keys = map platform.make (args_from 1 vs) in
        let done = kept.del (args_from 1 vs) w.storage u in
        if-cases Fine (ltb (size vs) 2) (λ is. same)
          (λ f. either (ltb 0 (del platform keys w.storage).1) _ _ (logged call _ _ done) done)

    incr-Fine : Fine (handle_incr platform call vs w)
    unfolding handle_incr
    incr-Fine =
        let key = platform.make (arg vs 1) in
        let done = kept.incr call.sampler call.now (arg vs 1) w.storage u in
        if-cases Fine (not (size vs == 2)) (λ is. same)
          λ f. elim (Option-cases (incr platform call.sampler call.now key w.storage).1) [
            | inl missing ↦ rw missing done
            | inr (val, found) ↦ rw found (logged call _ _ done)
          ]

    decr-Fine : Fine (handle_decr platform call vs w)
    unfolding handle_decr
    decr-Fine =
        let key = platform.make (arg vs 1) in
        let done = kept.decr call.sampler call.now (arg vs 1) w.storage u in
        if-cases Fine (not (size vs == 2)) (λ is. same)
          λ f. elim (Option-cases (decr platform call.sampler call.now key w.storage).1) [
            | inl missing ↦ rw missing done
            | inr (val, found) ↦ rw found (logged call _ _ done)
          ]

    expire-Fine : (cmd : Bytes) → Fine (handle_expire platform call vs w cmd)
    unfolding handle_expire expire
    expire-Fine cmd =
        let key = platform.make (arg vs 1) in
        if-cases Fine (not (size vs == 3)) (λ is. same)
          λ f. elim (Option-cases (from_chars_i64 (arg vs 2))) [
            | inl missing ↦ rw missing same
            | inr ((time_val, rest), found) ↦
                let deadline = add_size call.now (to_u64 (offset_of cmd time_val)) in
                let done = kept.expire_to call.now (arg vs 1) deadline w.storage u in
                rw found (
                  either (expire_to platform call.now key deadline w.storage).1 _ _
                    (logged call _ _ done) done)
          ]

    pexpireat-Fine : Fine (handle_pexpireat platform call vs w)
    unfolding handle_pexpireat expire_at
    pexpireat-Fine =
        let key = platform.make (arg vs 1) in
        if-cases Fine (not (size vs == 3)) (λ is. same)
          λ f. elim (Option-cases (from_chars_u64 (arg vs 2))) [
            | inl missing ↦ rw missing same
            | inr ((deadline, rest), found) ↦
                let done = kept.expire_to call.now (arg vs 1) deadline w.storage u in
                rw found (
                  either (expire_to platform call.now key deadline w.storage).1 _ _
                    (logged call _ _ done) done)
          ]

    persist-Fine : Fine (handle_persist platform call vs w)
    unfolding handle_persist
    persist-Fine =
        let key = platform.make (arg vs 1) in
        let done = kept.persist call.now (arg vs 1) w.storage u in
        if-cases Fine (not (size vs == 2)) (λ is. same)
          (λ f. either (persist platform call.now key w.storage).1 _ _ (logged call _ _ done) done)

    mutations-Fine : Mutations platform call vs w Fine
    mutations-Fine = record {
      set = λ named. set-Fine;
      del = λ named. del-Fine;
      incr = λ named. incr-Fine;
      decr = λ named. decr-Fine;
      expire = λ named. expire-Fine (to_upper (arg vs 0));
      pexpireat = λ named. pexpireat-Fine;
      persist = λ named. persist-Fine;
    }

  -- Whatever the request, a dispatch keeps what each operation keeps.
  pub dispatch-Keeps :
      (call : Call) (request : RespValue) (w : World)
      → Q w.storage
      → R (dispatch platform call request w).0.storage
  dispatch-Keeps call request w u =
      dispatch-cases platform call Fine request w (λ vs. commands-Fine call vs (count_command w) u)
        (λ vs e open'. mutations-Fine call vs (count_command w) u)
