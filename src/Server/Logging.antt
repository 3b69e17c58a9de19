-- ===== src/Server/Logging.antt =====
-- What a primary logs (src/server/CommandDispatcher.cpp, src/storage/AOFLogger.cpp).
use distributed_in_memory_ke.Prelude.{
  ℕ, ◌+◌, ◌≡◌, ◌⊎◌, ap, sym, ◌∙◌, refl, true, false, not, arith, inl, inr, Option-cases, some, ℤ,
  Bool-cases, Bytes, ltb, ◌==◌, to_u64,
}
use mathlib.Core.List.{map}
use distributed_in_memory_ke.Std.Decimal.{from_chars_i64}
use distributed_in_memory_ke.Protocol.Value.{RespValue, RespValues, array, size, serialize}
use distributed_in_memory_ke.Storage.Entry.{Platform, add_size}
use distributed_in_memory_ke.Storage.Live.{visible, live, HasShards}
use distributed_in_memory_ke.Storage.Operations.{set, del, incr, decr, increment, decrement}
use distributed_in_memory_ke.Storage.Writes.{set-live}
use distributed_in_memory_ke.Storage.Deletes.{entry_at-del_none}
use distributed_in_memory_ke.Storage.Numbers.{incr_views, decr_views}
use distributed_in_memory_ke.Server.Unchanged.{unstepped}
use distributed_in_memory_ke.Storage.AofLogger.{log}
use distributed_in_memory_ke.Server.Request.{arg, args_from, to_upper}
use distributed_in_memory_ke.Server.State.{World, Call, log_unless_bypassed}
use distributed_in_memory_ke.Server.Handlers.{Outcome, store}
use distributed_in_memory_ke.Server.Keys.{
  pexpireat_command, offset_of, handle_set, handle_del, handle_incr, handle_decr,
}
use distributed_in_memory_ke.Server.Branches.{if-cases, is_relative}
use distributed_in_memory_ke.Server.ReadOnly.{Unseen}

-- What is logged for a request at a time of the clock: EXPIRE and PEXPIRE as a PEXPIREAT for their
-- first argument, with the time and the span that the second one reads as, in the unit of the command;
-- and any other request as it came.
abbrev pub LogsFor : ℕ → RespValue → RespValue → Type 0
LogsFor now_log request logged =
    (vs : RespValues) × (request ≡ array vs)
    × (((logged ≡ request) × (is_relative (to_upper (arg vs 0)) ≡ false))
        ⊎ ((is_relative (to_upper (arg vs 0)) ≡ true)
            × (time_val : ℤ) × (rest : Bytes) × (from_chars_i64 (arg vs 2) ≡ some (time_val, rest))
            × (logged
                ≡ pexpireat_command (arg vs 1)
                    (add_size now_log (to_u64 (offset_of (to_upper (arg vs 0)) time_val))))))

-- Clients see no difference, or one frame is appended to the log.
abbrev pub Recorded : Platform → Call → RespValue → World → Outcome → Type 0
Recorded platform call request w out =
    Unseen platform call.now w out
    ⊎ ((logged : RespValue) × LogsFor call.now_log request logged
        × (out.0.aof ≡ log (serialize logged) w.aof))

-- The same, and the frame is the request as it came.
abbrev pub RecordedAsIs : Platform → ℕ → RespValue → World → Outcome → Type 0
RecordedAsIs platform now request w out =
    Unseen platform now w out ⊎ (out.0.aof ≡ log (serialize request) w.aof)

RecordedAsIs-Recorded :
    (platform : Platform) (call : Call) (vs : RespValues) (w : World) (out : Outcome)
    → is_relative (to_upper (arg vs 0)) ≡ false
    → RecordedAsIs platform call.now (array vs) w out
    → Recorded platform call (array vs) w out
RecordedAsIs-Recorded platform call vs w out named (inl unseen) = inl unseen
RecordedAsIs-Recorded platform call vs w out named (inr logged) =
    inr (array vs, (vs, refl, inl (refl, named)), logged)

module _ (platform : Platform) (call : Call) (on : call.has_aof ≡ true)
    (checked : call.bypass_readonly ≡ false) where
  logs : (text : Bytes) (w : World) → (log_unless_bypassed call text w).aof ≡ log text w.aof
  unfolding log_unless_bypassed
  logs text w = rw (on, checked)

  module _ (vs : RespValues) (w : World) (h : HasShards w.storage)
      (free : w.storage.max_memory_bytes ≡ 0) where
    abbrev Fine : Outcome → Type 0
    Fine = Recorded platform call (array vs) w

    abbrev AsIs : Outcome → Type 0
    AsIs = RecordedAsIs platform call.now (array vs) w

    abbrev IsAbsolute : Type 0
    IsAbsolute = is_relative (to_upper (arg vs 0)) ≡ false

    abbrev as_recorded : (out : Outcome) → AsIs out → IsAbsolute → Fine out
    as_recorded out logged named = RecordedAsIs-Recorded platform call vs w out named logged

    -- After a successful SET.
    abbrev after_set : World
    after_set =
        store
          (set platform call.sampler call.now (platform.make (arg vs 1)) (platform.make (arg vs 2))
            w.storage).0
          w

    pub set-RecordedAsIs : AsIs (handle_set platform call vs w)
    unfolding handle_set
    set-RecordedAsIs =
        if-cases AsIs (ltb (size vs) 3) (λ is. inl (refl, λ span j. refl))
          λ f.
            let done =
              (set-live platform (platform.make (arg vs 1)) (platform.make (arg vs 2)) call.now
                call.sampler w.storage h (rw free refl)).0 in
            rw done (inr (logs (serialize (array vs)) after_set))

    pub del-RecordedAsIs : AsIs (handle_del platform call vs w)
    unfolding handle_del
    del-RecordedAsIs =
        let keys = map platform.make (args_from 1 vs) in
        let r = del platform keys w.storage in
        if-cases AsIs (ltb (size vs) 2) (λ is. inl (refl, λ span j. refl))
          λ f. elim (Bool-cases (ltb 0 r.1)) [
            | inl some' ↦ rw some' (inr (logs (serialize (array vs)) (store r.0 w)))
            | inr none' ↦ rw none' (
                inl (
                  refl,
                  λ span j.
                      ap (visible (call.now + span))
                        (entry_at-del_none platform keys w.storage j h (ground arith)),
                ))
          ]

    pub incr-RecordedAsIs : AsIs (handle_incr platform call vs w)
    unfolding handle_incr
    incr-RecordedAsIs =
        let key = platform.make (arg vs 1) in
        let r = incr platform call.sampler call.now key w.storage in
        let (value', seen) = incr_views platform key call.sampler call.now w.storage h free in
        if-cases AsIs (not (size vs == 2)) (λ is. inl (refl, λ span j. refl))
          λ f. elim (Option-cases r.1) [
            | inl refused ↦ rw refused (
                inl (
                  refl,
                  λ span j.
                      seen (call.now + span) j (omega arith)
                      ∙ unstepped increment (call.now + span) key.chars j _
                          (live platform (call.now + span) w.storage) (sym value' ∙ refused),
                ))
            | inr (val, found) ↦ rw found (inr (logs (serialize (array vs)) (store r.0 w)))
          ]

    pub decr-RecordedAsIs : AsIs (handle_decr platform call vs w)
    unfolding handle_decr
    decr-RecordedAsIs =
        let key = platform.make (arg vs 1) in
        let r = decr platform call.sampler call.now key w.storage in
        let (value', seen) = decr_views platform key call.sampler call.now w.storage h free in
        if-cases AsIs (not (size vs == 2)) (λ is. inl (refl, λ span j. refl))
          λ f. elim (Option-cases r.1) [
            | inl refused ↦ rw refused (
                inl (
                  refl,
                  λ span j.
                      seen (call.now + span) j (omega arith)
                      ∙ unstepped decrement (call.now + span) key.chars j _
                          (live platform (call.now + span) w.storage) (sym value' ∙ refused),
                ))
            | inr (val, found) ↦ rw found (inr (logs (serialize (array vs)) (store r.0 w)))
          ]
