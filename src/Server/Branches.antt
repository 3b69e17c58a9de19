-- ===== src/Server/Branches.antt =====
-- Cases on the chain of commands of `CommandDispatcher::dispatch`
-- (src/server/CommandDispatcher.cpp).
use distributed_in_memory_ke.Prelude.{
  ap, sym, ◌∙◌, bytes_eq_sound, ◌≡◌, refl, Bool, true, false, not, ◌&&◌, ◌||◌, arith, if◌then◌else◌,
  Bytes, codes, bytes_eq,
}
use distributed_in_memory_ke.Protocol.Value.{
  RespValue, RespValues, nil, cons, simple_string, error, integer, bulk_string, array, null,
  string_value,
}
use distributed_in_memory_ke.Storage.Entry.{Platform}
use distributed_in_memory_ke.Server.Request.{to_upper, is_mutating_command, arg}
use distributed_in_memory_ke.Server.State.{World, Call, count_command}
use distributed_in_memory_ke.Server.Handlers.{
  Outcome, answer, handle_ping, handle_echo, handle_quit, handle_info, handle_config, handle_psync,
}
use distributed_in_memory_ke.Server.Keys.{
  handle_set, handle_get, handle_del, handle_exists, handle_incr, handle_decr, handle_expire,
  handle_pexpireat, handle_ttl, handle_persist,
}
use distributed_in_memory_ke.Server.Dispatch.{
  is_command_name, run_command, checked_command, dispatch,
}

pub if-cases {ℓ κ} :
    {A : Type ℓ} (P : A → Type κ) (b : Bool) {x y : A}
    → (b ≡ true → P x)
    → (b ≡ false → P y)
    → P (if b then x else y)
if-cases P true hx hy = hx refl
if-cases P false hx hy = hy refl

may_write :
    (read_only bypass mutates : Bool)
    → mutates ≡ true
    → (read_only && not bypass && mutates) ≡ false
    → (read_only && not bypass) ≡ false
may_write read_only bypass mutates m h = ground arith

-- A property of the outcomes of the commands, on a request's values and a state.
pub record Commands (platform : Platform) (call : Call) (vs : RespValues) (w : World)
    (P : Outcome → Type 0) : Type 0 where
  pub ping : P (handle_ping call vs w)
  pub echo : P (handle_echo call vs w)
  pub quit : P (handle_quit call vs w)
  pub info : P (handle_info call vs w)
  pub config : P (handle_config call vs w)
  pub psync : P (handle_psync call vs w)
  pub get : P (handle_get platform call vs w)
  pub exists : P (handle_exists platform call vs w)
  pub ttl : (cmd : Bytes) → P (handle_ttl platform call vs w cmd)
  pub refused : (message : Bytes) → P (answer w (error message))

-- The commands that name a span of time.
abbrev pub is_relative : Bytes → Bool
is_relative cmd = bytes_eq cmd (codes "EXPIRE") || bytes_eq cmd (codes "PEXPIRE")

other_command :
    (cmd first name : Bytes)
    → cmd ≡ first
    → bytes_eq cmd name ≡ true
    → is_relative name ≡ false
    → is_relative first ≡ false
other_command cmd first name same is other =
    ap is_relative (sym same ∙ bytes_eq_sound cmd name is) ∙ other

-- The mutating commands. What is known of the name is that of the request's first value.
pub record Mutations (platform : Platform) (call : Call) (vs : RespValues) (w : World)
    (P : Outcome → Type 0) : Type 0 where
  pub set : is_relative (to_upper (arg vs 0)) ≡ false → P (handle_set platform call vs w)
  pub del : is_relative (to_upper (arg vs 0)) ≡ false → P (handle_del platform call vs w)
  pub incr : is_relative (to_upper (arg vs 0)) ≡ false → P (handle_incr platform call vs w)
  pub decr : is_relative (to_upper (arg vs 0)) ≡ false → P (handle_decr platform call vs w)
  pub expire :
      is_relative (to_upper (arg vs 0)) ≡ true
      → P (handle_expire platform call vs w (to_upper (arg vs 0)))
  pub pexpireat :
      is_relative (to_upper (arg vs 0)) ≡ false → P (handle_pexpireat platform call vs w)
  pub persist : is_relative (to_upper (arg vs 0)) ≡ false → P (handle_persist platform call vs w)

module _ (platform : Platform) (call : Call) (P : Outcome → Type 0) where
  run_command-cases :
      (cmd : Bytes) (vs : RespValues) (w : World)
      → Commands platform call vs w P
      → cmd ≡ to_upper (arg vs 0)
      → (is_mutating_command cmd ≡ true → Mutations platform call vs w P)
      → P (run_command platform call cmd vs w)
  unfolding run_command is_mutating_command bytes_eq
  run_command-cases cmd vs w c first m =
      if-cases P (bytes_eq cmd (codes "PING")) (λ t. c.ping)
        λ f1.
          if-cases P (bytes_eq cmd (codes "ECHO")) (λ t. c.echo)
            λ f2.
              if-cases P (bytes_eq cmd (codes "QUIT")) (λ t. c.quit)
                λ f3.
                  if-cases P (bytes_eq cmd (codes "SET"))
                    (λ t. (m (ground arith)).set (other_command cmd _ (codes "SET") first t refl))
                    λ f4.
                      if-cases P (bytes_eq cmd (codes "GET")) (λ t. c.get)
                        λ f5.
                          if-cases P (bytes_eq cmd (codes "DEL"))
                            (λ t.
                              (m (ground arith)).del
                                (other_command cmd _ (codes "DEL") first t refl))
                            λ f6.
                              if-cases P (bytes_eq cmd (codes "EXISTS")) (λ t. c.exists)
                                λ f7.
                                  if-cases P (bytes_eq cmd (codes "INCR"))
                                    (λ t.
                                      (m (ground arith)).incr
                                        (other_command cmd _ (codes "INCR") first t refl))
                                    λ f8.
                                      if-cases P (bytes_eq cmd (codes "DECR"))
                                        (λ t.
                                          (m (ground arith)).decr
                                            (other_command cmd _ (codes "DECR") first t refl))
                                        λ f9.
                                          if-cases P
                                            (bytes_eq cmd (codes "EXPIRE")
                                              || bytes_eq cmd (codes "PEXPIRE"))
                                            (λ t. rw first (
                                              (m (ground arith)).expire
                                                (ap is_relative (sym first) ∙ t)))
                                            λ f10.
                                              if-cases P (bytes_eq cmd (codes "PEXPIREAT"))
                                                (λ t. (m (ground arith)).pexpireat (
                                                  other_command cmd _ (codes "PEXPIREAT") first t
                                                    refl))
                                                λ f11.
                                                  if-cases P
                                                    (bytes_eq cmd (codes "TTL")
                                                      || bytes_eq cmd (codes "PTTL"))
                                                    (λ t. c.ttl cmd)
                                                    λ f12.
                                                      if-cases P (bytes_eq cmd (codes "PERSIST"))
                                                        (λ t. (m (ground arith)).persist (
                                                          other_command cmd _ (codes "PERSIST")
                                                            first t refl))
                                                        λ f13.
                                                          if-cases P (bytes_eq cmd (codes "INFO"))
                                                            (λ t. c.info)
                                                            λ f14.
                                                            if-cases P
                                                            (bytes_eq cmd (codes "CONFIG"))
                                                            (λ t. c.config)
                                                            λ f15.
                                                            if-cases P
                                                            (bytes_eq cmd (codes "PSYNC"))
                                                            (λ t. c.psync) (λ f16. c.refused _)

  -- A mutating command is run only where the dispatch is not read-only, or bypasses that.
  pub dispatch-cases :
      (request : RespValue) (w : World)
      → ((vs : RespValues) → Commands platform call vs (count_command w) P)
      → ((vs : RespValues)
          → request ≡ array vs
          → (call.is_read_only && not call.bypass_readonly) ≡ false
          → Mutations platform call vs (count_command w) P)
      → P (dispatch platform call request w)
  unfolding dispatch checked_command
  dispatch-cases (simple_string s) w c m = (c nil).refused _
  dispatch-cases (error s) w c m = (c nil).refused _
  dispatch-cases (integer i) w c m = (c nil).refused _
  dispatch-cases (bulk_string s) w c m = (c nil).refused _
  dispatch-cases (array nil) w c m = (c nil).refused _
  dispatch-cases (array (cons name vs)) w c m =
      if-cases P (is_command_name name)
        (λ named.
          if-cases P
            (call.is_read_only
              && not call.bypass_readonly
              && is_mutating_command (to_upper (string_value name)))
            (λ refused. (c nil).refused _)
            (λ open'.
              run_command-cases (to_upper (string_value name)) (cons name vs) (count_command w)
                (c (cons name vs)) refl
                (λ mutates. m (cons name vs) refl (may_write _ _ _ mutates open'))))
        (λ unnamed. (c nil).refused _)
  dispatch-cases null w c m = (c nil).refused _
