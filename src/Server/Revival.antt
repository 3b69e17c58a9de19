-- ===== src/Server/Revival.antt =====
-- A restart after a deadline (src/server/CommandDispatcher.cpp, src/server/Server.cpp): INCR is logged as
-- it came, also where it has kept a deadline.
use distributed_in_memory_ke.Prelude.{
  ℕ, ◌≤◌, ◌<◌, ◌≡◌, ◌∙◌, ap, refl, subst, false, not, ◌&&◌, Option, none, some, arith, ℤ, pos,
  to_u64, to_i64, Bytes, codes, bytes_eq_refl,
}
use distributed_in_memory_ke.Std.Decimal.{from_chars_i64, to_string_i64}
use distributed_in_memory_ke.Storage.Shards.{entry_at}
use distributed_in_memory_ke.Storage.Entry.{Platform, CppString, DictEntry}
use distributed_in_memory_ke.Storage.Evict.{Engine, Sampler}
use distributed_in_memory_ke.Storage.Live.{visible, live, HasShards}
use distributed_in_memory_ke.Storage.Operations.{increment, incr}
use distributed_in_memory_ke.Storage.NumberWrites.{number_of, after_step, with_deadline_of, whole}
use distributed_in_memory_ke.Storage.Numbers.{incr-live}
use distributed_in_memory_ke.Server.State.{World, Call}
use distributed_in_memory_ke.Server.Commands.{incr_of, request_of, dispatch-stored}
use distributed_in_memory_ke.Server.Dispatch.{dispatch}

-- What INCR makes of its own key.
incr-live_at :
    (platform : Platform) (key : CppString) (j : Bytes) (sampler : Sampler) (now : ℕ) (e : Engine)
    → HasShards e
    → e.max_memory_bytes ≡ 0
    → (t : ℕ) → key.chars ≡ j
    → now ≤ t
    → live platform t (incr platform sampler now key e).0 j
      ≡ after_step increment t (number_of (live platform now e j)) (live platform t e j)
incr-live_at platform key j sampler now e h free t same later =
    subst
      (λ i.
        live platform t (incr platform sampler now key e).0 i
        ≡ after_step increment t (number_of (live platform now e i)) (live platform t e i))
      same
      (rw (bytes_eq_refl key.chars) at
        (incr-live platform key sampler now e h free t key.chars later).1)

module _ (platform : Platform) (call : Call)
    (writes : (call.is_read_only && not call.bypass_readonly) ≡ false) where
  -- The key after INCR.
  live-dispatch_incr :
      (key : Bytes) (w : World) (t : ℕ)
      → HasShards w.storage
      → w.storage.max_memory_bytes ≡ 0
      → call.now ≤ t
      → live platform t (dispatch platform call (request_of (incr_of key)) w).0.storage key
        ≡ after_step increment t
            (number_of (live platform call.now w.storage key))
            (live platform t w.storage key)
  live-dispatch_incr key w t h free later =
      ap (λ e. live platform t e key) (dispatch-stored platform call writes (incr_of key) w)
      ∙ incr-live_at platform (platform.make key) key call.sampler call.now w.storage h free t
          (platform.make_chars key) later

-- A value with a deadline is gone when it has passed.
visible-expires :
    (o : Option DictEntry) (now t deadline : ℕ) (chars : Bytes)
    → visible now o ≡ some (chars, deadline)
    → now < deadline
    → deadline ≤ t
    → visible t o ≡ none
visible-expires none now t deadline chars h later past = cc
visible-expires (some entry) now t deadline chars h later past = ground arith

-- So is the number that INCR makes of it.
after_step-expires :
    (val : Option ℤ) (t deadline : ℕ)
    → 0 < deadline
    → deadline ≤ t
    → after_step increment t (with_deadline_of deadline val) none ≡ none
after_step-expires none t deadline h past = refl
after_step-expires (some val) t deadline h past = ground arith

first_number : to_string_i64 (increment (pos 0)) ≡ codes "1"
unfolding to_string_i64 to_u64 to_i64
first_number = refl

-- Replaying the log after a deadline revives a key. Take a key that is live with a deadline, in a
-- world with a shard and no memory limit, and two calls that may write, the first before the
-- deadline and the second not before it. At any time from the second call on, the key is gone after
-- an INCR in the first call; after the same INCR in the second call, as a restart makes it from the
-- log, the key has the value 1 and no deadline.
pub dispatch-revives :
    (platform : Platform) (call call' : Call) (key chars : Bytes) (deadline : ℕ) (w : World)
    → (call.is_read_only && not call.bypass_readonly) ≡ false
    → (call'.is_read_only && not call'.bypass_readonly) ≡ false
    → HasShards w.storage
    → w.storage.max_memory_bytes ≡ 0
    → live platform call.now w.storage key ≡ some (chars, deadline)
    → call.now < deadline
    → deadline ≤ call'.now
    → (t : ℕ) → call'.now ≤ t
    → (live platform t (dispatch platform call (request_of (incr_of key)) w).0.storage key ≡ none)
      × (live platform t (dispatch platform call' (request_of (incr_of key)) w).0.storage key
          ≡ some (codes "1", 0))
dispatch-revives platform call call' key chars deadline w writes writes' h free alive before past t
      later =
    let gone : (s : ℕ) → deadline ≤ s → live platform s w.storage key ≡ none = λ s late.
      visible-expires (entry_at platform w.storage.shards key) call.now s deadline chars alive
        before late in
    (
      live-dispatch_incr platform call writes key w t h free (omega arith)
          ∙ rw (alive, gone t (omega arith))
              (after_step-expires (whole (from_chars_i64 chars)) t deadline (omega arith)
                (omega arith)),
      live-dispatch_incr platform call' writes' key w t h free later
          ∙ rw (gone call'.now past) (ap (λ s. some (s, 0)) first_number),
    )
