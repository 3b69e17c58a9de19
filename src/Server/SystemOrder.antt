-- ===== src/Server/SystemOrder.antt =====
-- The order of the log, and the order of the commands (src/server/CommandDispatcher.cpp): a thread is
-- behind the storage engine before it is at the log, and others may go first in between.
use distributed_in_memory_ke.Prelude.{
  bytes_eq, ℕ, zero, suc, ◌+◌, ◌≤◌, ◌<◌, ◌≡◌, ◌∙◌, ap, sym, refl, inl, Bool, true, [], ◌∷◌, ◌++◌,
  append-nil, arith, Bytes, two63, length, length-append, drop, drop-append, none,
}
use distributed_in_memory_ke.Protocol.Value.{RespValue, nil, cons, serialize, serialize_items}
use distributed_in_memory_ke.Protocol.RoundTrip.{IsFrames, parse-serialize, length-serialize_pos}
use distributed_in_memory_ke.Protocol.Parser.{incomplete, value, parse}
use distributed_in_memory_ke.Storage.Entry.{Platform}
use distributed_in_memory_ke.Storage.Evict.{Sampler}
use distributed_in_memory_ke.Storage.Writes.{set-live}
use distributed_in_memory_ke.Storage.AofLogger.{log}
use distributed_in_memory_ke.Storage.Meaning.{Contents, Shows, Unbounded}
use distributed_in_memory_ke.Server.State.{
  World, DispatchResult, client_connects, log_unless_bypassed,
}
use distributed_in_memory_ke.Server.Request.{to_upper}
use distributed_in_memory_ke.Server.Keys.{handle_set}
use distributed_in_memory_ke.Server.Dispatch.{dispatch}
use distributed_in_memory_ke.Server.Commands.{
  set_to, request_of, meaning, dispatch-handled, dispatch-Shows,
}
use distributed_in_memory_ke.Server.Serving.{requests_of, meaning_all, NeverFalls}
use distributed_in_memory_ke.Server.Replay.{
  Environment, finished, replay, dispatch_all, replay-serialize,
}
use distributed_in_memory_ke.Server.Recovery.{dispatch_all-Shows}
use distributed_in_memory_ke.Server.System.{
  replying, System, primary_call, loop_of, accept, read, store_command, log_command, Reach, start,
  next,
}

pub parse-empty : (reserve_limit depth : ℕ) → 0 < depth → parse reserve_limit depth [] ≡ incomplete
unfolding parse
parse-empty reserve_limit zero h = absurd (omega arith)
parse-empty reserve_limit (suc depth) h = refl

-- Two threads: both commands reach the storage engine, and then the log in the other order.
module _ (platform : Platform) (reserve_limit depth : ℕ) (now now' : ℕ) (sampler : Sampler)
    (w : World) (q q' : RespValue) where
  abbrev pub first : World × DispatchResult
  first = dispatch platform (primary_call now now sampler) q (client_connects (client_connects w))

  abbrev pub second : World × DispatchResult
  second = dispatch platform (primary_call now' now' sampler) q' (record first.0 { aof = w.aof })

  -- What they log.
  abbrev pub first_text : Bytes
  first_text = drop (length w.aof.file) first.0.aof.file

  abbrev pub second_text : Bytes
  second_text = drop (length w.aof.file) second.0.aof.file

  abbrev pub crossed : System
  crossed = record {
    world = record second.0 { aof = log first_text (log second_text w.aof) };
    clients =
        replying (drop (length (serialize q)) (serialize q ++ [])) first.1
        ∷ replying (drop (length (serialize q')) (serialize q' ++ [])) second.1
        ∷ [];
  }

  pub Reach-crossed :
      0 < depth
      → loop_of now q ≡ none
      → loop_of now' q' ≡ none
      → parse reserve_limit depth (serialize q ++ []) ≡ value q (length (serialize q))
      → parse reserve_limit depth (serialize q' ++ []) ≡ value q' (length (serialize q'))
      → Reach platform reserve_limit depth w crossed
  Reach-crossed deep plain plain' parsed parsed' =
      let empty = parse-empty reserve_limit depth deep in
      next
        (next
          (next
            (next
              (next
                (next (next (next start accept) accept) (read 0 [] (serialize q ++ []) refl empty))
                (read 1 [] (serialize q' ++ []) refl empty))
              (store_command 0 _ q _ now now sampler refl parsed plain))
            (store_command 1 _ q' _ now' now' sampler refl parsed' plain'))
          (log_command 1 _ second_text second.1 refl))
        (log_command 0 _ first_text first.1 refl)

set-logged :
    (platform : Platform) (now : ℕ) (sampler : Sampler) (k s : Bytes) (w : World)
    → Unbounded w.storage.shards w.storage.max_memory_bytes
    → w.aof.is_open ≡ true
    → (dispatch platform (primary_call now now sampler) (request_of (set_to k s)) w).0.aof
      ≡ record { is_open = true; file = w.aof.file ++ serialize (request_of (set_to k s)) }
unfolding handle_set log_unless_bypassed log
set-logged platform now sampler k s w u open' =
    let done =
      (set-live platform (platform.make k) (platform.make s) now sampler w.storage u.0
        (rw (u.1) refl)).0 in
    ap (λ o. o.0.aof) (dispatch-handled platform (primary_call now now sampler) refl (set_to k s) w)
    ∙ rw (done, open') refl

set-appended :
    (platform : Platform) (now : ℕ) (sampler : Sampler) (k s : Bytes) (w : World)
    → Unbounded w.storage.shards w.storage.max_memory_bytes
    → w.aof.is_open ≡ true
    → drop
        (length w.aof.file)
        (dispatch platform (primary_call now now sampler) (request_of (set_to k s)) w).0.aof.file
      ≡ serialize (request_of (set_to k s))
set-appended platform now sampler k s w u open' =
    ap (λ a. drop (length w.aof.file) a.file) (set-logged platform now sampler k s w u open')
    ∙ drop-append w.aof.file (serialize (request_of (set_to k s)))

two_frames :
    (file : Bytes) (v v' : RespValue)
    → file ≡ []
    → (file ++ serialize v) ++ serialize v' ≡ serialize_items (cons v (cons v' nil)) ++ []
unfolding serialize
two_frames file v v' empty = rw empty (
    ap (λ t. serialize v ++ t) (sym (append-nil (serialize v')))
    ∙ sym (append-nil (serialize v ++ (serialize v' ++ []))))

two_frames_length :
    (v v' : RespValue)
    → (length (serialize_items (cons v (cons v' nil)))
        ≡ length (serialize v) + length (serialize v'))
      × (length (serialize_items (cons v (cons v' nil)) ++ [])
          ≡ length (serialize v) + length (serialize v'))
unfolding serialize
two_frames_length v v' =
    rw (append-nil (serialize v'), append-nil (serialize v ++ serialize v'))
      (length-append (serialize v) (serialize v'), length-append (serialize v) (serialize v'))

-- Two SETs of a key.
module _ (platform : Platform) (reserve_limit depth bound : ℕ) (sampler : Sampler) (k s s' : Bytes)
    (w : World) (u : Unbounded w.storage.shards w.storage.max_memory_bytes) where
  abbrev q : RespValue
  q = request_of (set_to k s)

  abbrev q' : RespValue
  q' = request_of (set_to k s')

  abbrev both_set : System
  both_set = crossed platform reserve_limit depth bound bound sampler w q q'

  first-Shows :
      (m : Contents)
      → Shows platform 0 w.storage m
      → Unbounded
          (first platform reserve_limit depth bound bound sampler w q q').0.storage.shards
          (first platform reserve_limit depth bound bound sampler w q q').0.storage.max_memory_bytes
        × Shows platform bound
            (first platform reserve_limit depth bound bound sampler w q q').0.storage
            (meaning (set_to k s) m)
  first-Shows m shows =
      dispatch-Shows platform (primary_call bound bound sampler) refl (set_to k s) 0
        (client_connects (client_connects w)) m u shows (omega arith)

  both_set-Shows :
      (m : Contents)
      → Shows platform 0 w.storage m
      → Shows platform bound both_set.world.storage (meaning_all (set_to k s ∷ set_to k s' ∷ []) m)
  both_set-Shows m shows =
      let (u', shows') = first-Shows m shows in
      (dispatch-Shows platform (primary_call bound bound sampler) refl (set_to k s') bound
        (record (first platform reserve_limit depth bound bound sampler w q q').0 { aof = w.aof })
        (meaning (set_to k s) m) u' shows' (omega arith)).1

  both_set-file :
      (m : Contents)
      → Shows platform 0 w.storage m
      → w.aof ≡ record { is_open = true; file = [] }
      → both_set.world.aof.file
        ≡ serialize_items (requests_of (set_to k s' ∷ set_to k s ∷ [])) ++ []
  unfolding serialize log
  both_set-file m shows fresh =
      let open' : w.aof.is_open ≡ true = ap (λ a. a.is_open) fresh in
      let file : w.aof.file ≡ [] = ap (λ a. a.file) fresh in
      let (u', shows') = first-Shows m shows in
      let first' = first platform reserve_limit depth bound bound sampler w q q' in
      let one : first_text platform reserve_limit depth bound bound sampler w q q' ≡ serialize q =
        set-appended platform bound sampler k s (client_connects (client_connects w)) u open' in
      let two : second_text platform reserve_limit depth bound bound sampler w q q' ≡ serialize q' =
        set-appended platform bound sampler k s' (record first'.0 { aof = w.aof }) u' open' in
      rw (one, two, open') (two_frames w.aof.file q' q file)

module _ (platform : Platform) (reserve_limit : ℕ) (is_replica : Bool) (restart : Environment)
    (rises : NeverFalls restart.clock) (bound : ℕ) (within : (n : ℕ) → restart.clock n ≤ bound)
    (sampler : Sampler) where
  -- Two clients that set the same key can leave a log that means something else than the store. On
  -- a primary with a shard, no memory limit, an empty log and contents without deadlines there is a
  -- state that the threads reach in which the store shows the first SET and then the second, while
  -- a restart from the log replays two commands and shows the second SET and then the first. The
  -- other engine starts with the same contents; the clock never falls, the requests are frames, and
  -- their prints are together shorter than 2 ^ 63 bytes and no longer than the depth; there are
  -- more than two rounds.
  pub Reach-reordered :
      (k s s' : Bytes) (rounds depth : ℕ) (w v : World) (m : Contents)
      → IsFrames reserve_limit (requests_of (set_to k s ∷ set_to k s' ∷ []))
      → Unbounded w.storage.shards w.storage.max_memory_bytes
      → Unbounded v.storage.shards v.storage.max_memory_bytes
      → Shows platform 0 w.storage m
      → Shows platform 0 v.storage m
      → w.aof ≡ record { is_open = true; file = [] }
      → length (serialize (request_of (set_to k s))) + length (serialize (request_of (set_to k s')))
        < two63
      → length (serialize (request_of (set_to k s))) + length (serialize (request_of (set_to k s')))
        ≤ depth
      → 2 < rounds
      → (t : System) × Reach platform reserve_limit depth w t
        × Shows platform bound t.world.storage (meaning_all (set_to k s ∷ set_to k s' ∷ []) m)
        × (restored : World) × (replay platform reserve_limit is_replica restart rounds depth 0
              t.world.aof.file v
            ≡ finished restored 2 [])
        × Shows platform bound restored.storage (meaning_all (set_to k s' ∷ set_to k s ∷ []) m)
  unfolding to_upper bytes_eq
  Reach-reordered k s s' rounds depth w v m (ok, (ok', done)) u u' shows shows' fresh small deep
        long =
      let one = request_of (set_to k s) in
      let two = request_of (set_to k s') in
      let (bytes, bytes') = two_frames_length two one in
      let nothing = append-nil (serialize one) in
      let nothing' = append-nil (serialize two) in
      let positive = length-serialize_pos one in
      (
        both_set platform reserve_limit depth bound sampler k s s' w u,
        Reach-crossed platform reserve_limit depth bound bound sampler w one two (omega arith) refl
            refl
            (parse-serialize reserve_limit one [] depth ok (rw nothing (omega arith)) (omega arith))
            (parse-serialize reserve_limit two [] depth ok' (rw nothing' (omega arith))
              (omega arith)),
        both_set-Shows platform reserve_limit depth bound sampler k s s' w u m shows,
        dispatch_all platform reserve_limit is_replica restart 0 (cons two (cons one nil)) v,
        rw (both_set-file platform reserve_limit depth bound sampler k s s' w u m shows fresh) (
            replay-serialize platform reserve_limit is_replica restart (cons two (cons one nil))
              rounds depth 0 [] v (ok', (ok, done)) (inl refl) (omega arith) (omega arith) long),
        dispatch_all-Shows platform reserve_limit is_replica restart rises bound within
            (set_to k s' ∷ set_to k s ∷ []) 0 0 v m u' shows' (omega arith),
      )
