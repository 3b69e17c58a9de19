-- ===== src/Server/SystemInvariant.antt =====
-- What the threads of a primary (src/server/Server.cpp) keep, in whatever order they run.
use distributed_in_memory_ke.Prelude.{
  ltb, ◌+◌, ℕ, ◌≤◌, ◌≡◌, sym, refl, [], ◌∷◌, ◌++◌, append-nil, Bytes, drop, All-append,
  All-get_elem?,
}
use distributed_in_memory_ke.Protocol.Value.{RespValue, nil, cons, serialize}
use distributed_in_memory_ke.Protocol.Parser.{value, parse}
use distributed_in_memory_ke.Storage.Entry.{Platform, CppString}
use distributed_in_memory_ke.Storage.Evict.{Sampler, Engine}
use distributed_in_memory_ke.Storage.AofLogger.{log}
use distributed_in_memory_ke.Storage.UniqueOperations.{
  HasUniqueKeys, UniqueShards, UniqueShards-IsClosed,
}
use distributed_in_memory_ke.Storage.KeptOperations.{del_key-Kept, exists_key-Kept}
use distributed_in_memory_ke.Server.Branches.{if-cases}
use distributed_in_memory_ke.Protocol.RoundTrip.{IsFrame}
use distributed_in_memory_ke.Storage.Sweeper.{sweep-HasUniqueKeys}
use distributed_in_memory_ke.Server.State.{World, count_command}
use distributed_in_memory_ke.Server.Dispatch.{dispatch}
use distributed_in_memory_ke.Server.LogEntries.{dispatch-connected_clients}
use distributed_in_memory_ke.Server.LogFrames.{HoldsFrames, dispatch-appended}
use distributed_in_memory_ke.Server.UniqueKeys.{dispatch-HasUniqueKeys}
use distributed_in_memory_ke.Server.PsyncStream.{seek, stream_round}
use distributed_in_memory_ke.Server.Follow.{seek-IsFollowing, stream_round-IsFollowing}
use distributed_in_memory_ke.Server.System.{
  Phase, KeyLoop, deletes, checks, loop_text, visit, start_loop, visit_key, end_loop, visiting,
  reading, storing, replying, syncing, gone, System, IsAt, primary_call, store_outcome, leave,
  MayLeave, Step, accept, read, store_command, log_command, reply_sent, start_stream, stream,
  end_thread, sweep_shards, Reach, start, next,
}
use distributed_in_memory_ke.Server.SystemSound.{
  alive, alive-append, IsText, IsSoundAt, IsSound, log-cases, runs_on, moves, joining, leaves,
  parse-value-IsFrame,
}

module _ (reserve_limit : ℕ) where
  module _ (roomy : 3 ≤ reserve_limit) (platform : Platform) (depth : ℕ) where
    stores :
        (s : System) (i : ℕ) (buffer : Bytes) (request : RespValue) (consumed now now_log : ℕ)
        (sampler : Sampler)
        → IsAt s i (reading buffer)
        → parse reserve_limit depth buffer ≡ value request consumed
        → IsSound reserve_limit s
        → IsSound reserve_limit (
            store_outcome i
              (drop consumed buffer)
              s
              (dispatch platform (primary_call now now_log sampler) request s.world))
    stores s i buffer request consumed now now_log sampler found parsed sound =
        let call = primary_call now now_log sampler in
        let ok = parse-value-IsFrame reserve_limit depth buffer request consumed parsed in
        runs_on reserve_limit s
          (record (dispatch platform call request s.world).0 { aof = s.world.aof }) i
          (reading buffer) _ found refl refl sound
          (dispatch-HasUniqueKeys platform call request s.world sound.keys)
          (sound.frames, ([], sym (append-nil s.world.aof.file)))
          (dispatch-connected_clients platform call request s.world)
          (dispatch-appended reserve_limit roomy platform call request s.world ok)

    visit-HasUniqueKeys :
        (loop : KeyLoop) (key : CppString) (e : Engine)
        → HasUniqueKeys e
        → HasUniqueKeys (visit platform loop key e).0
    visit-HasUniqueKeys deletes key e u =
        del_key-Kept platform UniqueShards (UniqueShards-IsClosed platform) key e u
    visit-HasUniqueKeys (checks now) key e u =
        exists_key-Kept platform UniqueShards (UniqueShards-IsClosed platform) now key e u

    loop_text-IsText :
        (loop : KeyLoop) (request : RespValue) (count : ℕ)
        → IsFrame reserve_limit request
        → IsText reserve_limit (loop_text loop request count)
    unfolding serialize
    loop_text-IsText deletes request count ok =
        if-cases (IsText reserve_limit) (ltb 0 count)
          (λ some'. (cons request nil, (ok, tt), sym (append-nil (serialize request))))
          (λ none'. (nil, tt, refl))
    loop_text-IsText (checks now) request count ok = (nil, tt, refl)

    ends :
        (s : System) (i : ℕ) (p : Phase)
        → IsAt s i p
        → MayLeave platform reserve_limit depth p
        → IsSound reserve_limit s
        → IsSound reserve_limit (leave i s)
    ends s i (reading buffer) found may sound =
        leaves reserve_limit s i (reading buffer) found refl sound
    ends s i (replying rest result) found may sound =
        leaves reserve_limit s i (replying rest result) found refl sound
    ends s i (syncing offset state) found may sound =
        leaves reserve_limit s i (syncing offset state) found refl sound
    ends s i (visiting rest request loop keys count) found may sound = absurd may
    ends s i (storing rest text result) found may sound = absurd may
    ends s i gone found may sound = absurd may

    Step-IsSound :
        (s t : System)
        → Step platform reserve_limit depth s t
        → IsSound reserve_limit s
        → IsSound reserve_limit t
    Step-IsSound s t accept sound = record {
      keys = sound.keys;
      frames = sound.frames;
      threads =
          All-append (IsSoundAt reserve_limit s.world.aof.file) s.clients (reading [] ∷ [])
            sound.threads (tt, tt);
      counted =
          joining reserve_limit (alive s.clients) _ s.world.connected_clients
            (alive-append s.clients (reading [] ∷ [])) sound.counted;
    }
    Step-IsSound s t (read i buffer chunk found short) sound =
        moves reserve_limit s i (reading buffer) (reading (buffer ++ chunk)) found refl refl sound
          tt
    Step-IsSound s t
          (store_command i buffer request consumed now now_log sampler found parsed plain) sound =
        stores s i buffer request consumed now now_log sampler found parsed sound
    Step-IsSound s t (start_loop i buffer request consumed now loop keys found parsed is) sound =
        runs_on reserve_limit s (count_command s.world) i (reading buffer)
          (visiting (drop consumed buffer) request loop keys 0) found refl refl sound sound.keys
          (sound.frames, ([], sym (append-nil s.world.aof.file))) refl
          (parse-value-IsFrame reserve_limit depth buffer request consumed parsed)
    Step-IsSound s t (visit_key i rest request loop key keys count found) sound =
        let visited = visit platform loop (platform.make key) s.world.storage in
        runs_on reserve_limit s (record s.world { storage = visited.0 }) i
          (visiting rest request loop (key ∷ keys) count)
          (visiting rest request loop keys (count + visited.1)) found refl refl sound
          (visit-HasUniqueKeys loop (platform.make key) s.world.storage sound.keys)
          (sound.frames, ([], sym (append-nil s.world.aof.file))) refl
          (All-get_elem? (IsSoundAt reserve_limit s.world.aof.file) s.clients i
            (visiting rest request loop (key ∷ keys) count) sound.threads found)
    Step-IsSound s t (end_loop i rest request loop count found) sound =
        moves reserve_limit s i (visiting rest request loop [] count) _ found refl refl sound (
          loop_text-IsText loop request count (
            All-get_elem? (IsSoundAt reserve_limit s.world.aof.file) s.clients i
              (visiting rest request loop [] count) sound.threads found))
    Step-IsSound s t (log_command i rest text result found) sound =
        let text-IsText =
          All-get_elem? (IsSoundAt reserve_limit s.world.aof.file) s.clients i
            (storing rest text result) sound.threads found in
        runs_on reserve_limit s (record s.world { aof = log text s.world.aof }) i
          (storing rest text result) (replying rest result) found refl refl sound sound.keys
          (log-cases reserve_limit text s.world.aof sound.frames text-IsText) refl tt
    Step-IsSound s t (reply_sent i rest result found plain open') sound =
        moves reserve_limit s i (replying rest result) (reading rest) found refl refl sound tt
    Step-IsSound s t (start_stream i rest result found is) sound =
        let offset = result.psync_offset in
        moves reserve_limit s i (replying rest result) (syncing offset (seek offset)) found refl
          refl sound (seek-IsFollowing offset s.world.aof.file)
    Step-IsSound s t (stream i offset state found) sound =
        let file = s.world.aof.file in
        moves reserve_limit s i (syncing offset state) (syncing offset (stream_round file state))
          found refl refl sound
          (stream_round-IsFollowing (seek offset).position file state (
            All-get_elem? (IsSoundAt reserve_limit file) s.clients i (syncing offset state)
              sound.threads found))
    Step-IsSound s t (end_thread i p found may) sound = ends s i p found may sound
    Step-IsSound s t (sweep_shards now owns) sound = record {
      keys = sweep-HasUniqueKeys platform now owns s.world.storage sound.keys;
      frames = sound.frames;
      threads = sound.threads;
      counted = sound.counted;
    }

    pub Reach-IsSound :
        (w : World) (s : System)
        → HasUniqueKeys w.storage
        → HoldsFrames reserve_limit w.aof
        → w.connected_clients ≡ 0
        → Reach platform reserve_limit depth w s
        → IsSound reserve_limit s
    Reach-IsSound w s keys frames none' start = record {
      keys = keys;
      frames = frames;
      threads = tt;
      counted = none';
    }
    Reach-IsSound w s keys frames none' (next before step) =
        Step-IsSound _ s step (Reach-IsSound w _ keys frames none' before)
