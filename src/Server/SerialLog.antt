-- ===== src/Server/SerialLog.antt =====
-- The log of clients that send commands at once (src/server/CommandDispatcher.cpp, src/server/Server.cpp).
use distributed_in_memory_ke.Prelude.{
  ℕ, ◌≤◌, ◌≡◌, ◌∙◌, ap, sym, refl, inl, inr, Bool, true, List, [], ◌∷◌, ◌++◌, append-nil, arith,
  Bytes, drop, drop-append, length, set, subst,
}
use mathlib.Core.List.{Perm}
use mathlib.Core.List.Perm
use mathlib.Core.List.Permᴰ
use distributed_in_memory_ke.Protocol.Value.{serialize, serialize_items}
use distributed_in_memory_ke.Storage.Entry.{Platform}
use distributed_in_memory_ke.Storage.Evict.{Sampler}
use distributed_in_memory_ke.Storage.Sweeper.{sweep, sweep-live, sweep-HasUniqueKeys, sweep-limit}
use distributed_in_memory_ke.Storage.Meaning.{Contents, Shows, Unbounded}
use distributed_in_memory_ke.Storage.UniqueOperations.{HasUniqueKeys}
use distributed_in_memory_ke.Server.State.{World}
use distributed_in_memory_ke.Server.Dispatch.{dispatch}
use distributed_in_memory_ke.Server.UniqueKeys.{dispatch-HasUniqueKeys}
use distributed_in_memory_ke.Server.Commands.{Command, request_of, meaning, dispatch-Shows}
use distributed_in_memory_ke.Server.Serving.{requests_of, meaning_all, dispatch-logs, log-open}
use distributed_in_memory_ke.Server.System.{
  Phase, reading, storing, replying, syncing, gone, System, IsAt, primary_call, appended, visiting,
  start_loop, visit_key, end_loop, store_outcome, MayLeave, Step, accept, read, store_command,
  log_command, reply_sent, start_stream, stream, end_thread, sweep_shards,
}
use distributed_in_memory_ke.Server.SystemLog.{
  meaning_all-append, left_comm, Waits-set, Waits-accept,
}
use distributed_in_memory_ke.Server.SystemHistory.{
  SparesStore, Thins, nothing_yet, skips, takes, Run, begins, stores, sweeps, goes, IsHistory,
  moves-IsHistory, logs-IsHistory,
}

module _ (platform : Platform) (reserve_limit depth : ℕ) (w : World) (m : Contents) where
  stores-IsHistory :
      (cs : List Command) (last : ℕ) (s : System) (i : ℕ) (buffer : Bytes) (c : Command)
      (consumed now now_log : ℕ) (sampler : Sampler) (new : List Command)
      → IsAt s i (reading buffer)
      → last ≤ now
      → appended s.world
          (dispatch platform (primary_call now now_log sampler) (request_of c) s.world).0
        ≡ serialize_items (requests_of new)
      → (h : IsHistory platform reserve_limit depth w m cs last s)
      → Thins m (cs ++ c ∷ []) (h.effective ++ new)
      → IsHistory platform reserve_limit depth w m (cs ++ c ∷ []) now (
          store_outcome i
            (drop consumed buffer)
            s
            (dispatch platform (primary_call now now_log sampler) (request_of c) s.world))
  stores-IsHistory cs last s i buffer c consumed now now_log sampler new found le text h thins =
      let call = primary_call now now_log sampler in
      let all : meaning_all (cs ++ c ∷ []) m ≡ meaning c (meaning_all cs m) =
        meaning_all-append cs (c ∷ []) m in
      let (unbounded, shows) =
        dispatch-Shows platform call refl c last s.world (meaning_all cs m) h.unbounded h.shows
          le in
      let (old, others, waiting', held, waits', was, is) =
        Waits-set s.clients i (reading buffer) _ h.waiting new found h.waits text in
      let was' : Perm h.waiting others = subst (λ l. Perm h.waiting (l ++ others)) held was in
      record {
        unbounded = unbounded;
        keys = dispatch-HasUniqueKeys platform call (request_of c) s.world h.keys;
        shows = rw all shows;
        is_open = h.is_open;
        effective = h.effective ++ new;
        same = thins;
        logged = h.logged;
        file = h.file;
        waiting = waiting';
        waits = waits';
        permuted =
            Perm.trans
              (Perm.append_left h.logged (Perm.trans is (Perm.append_left new (Perm.symm was'))))
              (Perm.trans (left_comm h.logged new h.waiting) (
                Perm.trans (Perm.append_left new h.permuted)
                  ∣ Permᴰ.append_comm new h.effective ∣₁));
      }

  -- A command is logged as it came, or it changes nothing.
  stores_command-IsHistory :
      (cs : List Command) (last : ℕ) (s : System) (i : ℕ) (buffer : Bytes) (c : Command)
      (consumed now now_log : ℕ) (sampler : Sampler)
      → IsAt s i (reading buffer)
      → last ≤ now
      → IsHistory platform reserve_limit depth w m cs last s
      → IsHistory platform reserve_limit depth w m (cs ++ c ∷ []) now (
          store_outcome i
            (drop consumed buffer)
            s
            (dispatch platform (primary_call now now_log sampler) (request_of c) s.world))
  unfolding serialize
  stores_command-IsHistory cs last s i buffer c consumed now now_log sampler found le h =
      let call = primary_call now now_log sampler in
      let file = s.world.aof.file in
      elim (dispatch-logs platform call refl refl refl c last s.world (meaning_all cs m) h.unbounded
        h.shows le) [
          | inl (same, nothing) ↦
              stores-IsHistory cs last s i buffer c consumed now now_log sampler [] found le
                (ap (λ a. drop (length file) a.file) same
                  ∙ ap (drop (length file)) (sym (append-nil file))
                  ∙ drop-append file [])
                h (rw (append-nil h.effective) (skips h.same c nothing))
          | inr logged ↦
              stores-IsHistory cs last s i buffer c consumed now now_log sampler (c ∷ []) found le
                (ap (λ a. drop (length file) a.file)
                    (logged ∙ log-open (serialize (request_of c)) s.world.aof h.is_open)
                  ∙ drop-append file (serialize (request_of c))
                  ∙ sym (append-nil (serialize (request_of c))))
                h (takes h.same c)
        ]

  sweeps-IsHistory :
      (cs : List Command) (last : ℕ) (s : System) (now : ℕ) (owns : ℕ → Bool)
      → last ≤ now
      → IsHistory platform reserve_limit depth w m cs last s
      → IsHistory platform reserve_limit depth w m cs now (record s {
        world = record s.world { storage = sweep now owns platform s.world.storage };
      })
  sweeps-IsHistory cs last s now owns le h =
      let kept = sweep-limit platform now owns s.world.storage in
      record {
        unbounded = (rw kept.0 h.unbounded.0, kept.1 ∙ h.unbounded.1);
        keys = sweep-HasUniqueKeys platform now owns s.world.storage h.keys;
        shows = λ t j past.
            sweep-live platform now t owns s.world.storage j h.keys past
            ∙ h.shows t j (omega arith);
        is_open = h.is_open;
        effective = h.effective;
        same = h.same;
        logged = h.logged;
        file = h.file;
        waiting = h.waiting;
        waits = h.waits;
        permuted = h.permuted;
      }

  -- A thread has no text in these phases.
  ends-IsHistory :
      (cs : List Command) (last : ℕ) (s : System) (connected i : ℕ) (p : Phase)
      → MayLeave platform reserve_limit depth p
      → IsAt s i p
      → IsHistory platform reserve_limit depth w m cs last s
      → IsHistory platform reserve_limit depth w m cs last (record {
        world = record s.world { connected_clients = connected };
        clients = set s.clients i gone;
      })
  ends-IsHistory cs last s connected i (reading buffer) may found h =
      moves-IsHistory platform reserve_limit depth w m cs last s connected i (reading buffer) gone
        (λ old e. e) refl found h
  ends-IsHistory cs last s connected i (replying rest result) may found h =
      moves-IsHistory platform reserve_limit depth w m cs last s connected i (replying rest result)
        gone (λ old e. e) refl found h
  ends-IsHistory cs last s connected i (syncing offset state) may found h =
      moves-IsHistory platform reserve_limit depth w m cs last s connected i (syncing offset state)
        gone (λ old e. e) refl found h
  ends-IsHistory cs last s connected i (visiting rest request loop keys count) may found h =
      absurd may
  ends-IsHistory cs last s connected i (storing rest text result) may found h = absurd may
  ends-IsHistory cs last s connected i gone may found h = absurd may

  goes-IsHistory :
      (cs : List Command) (last : ℕ) (s t : System) (step : Step platform reserve_limit depth s t)
      → SparesStore platform reserve_limit depth step
      → IsHistory platform reserve_limit depth w m cs last s
      → IsHistory platform reserve_limit depth w m cs last t
  goes-IsHistory cs last s t accept spares h = record {
    unbounded = h.unbounded;
    keys = h.keys;
    shows = h.shows;
    is_open = h.is_open;
    effective = h.effective;
    same = h.same;
    logged = h.logged;
    file = h.file;
    waiting = h.waiting;
    waits = Waits-accept s.clients h.waiting h.waits;
    permuted = h.permuted;
  }
  goes-IsHistory cs last s t (read i buffer chunk found short) spares h =
      moves-IsHistory platform reserve_limit depth w m cs last s s.world.connected_clients i
        (reading buffer) _ (λ old e. e) refl found h
  goes-IsHistory cs last s t
        (store_command i buffer request consumed now now_log sampler found parsed plain) spares h =
      absurd spares
  goes-IsHistory cs last s t (start_loop i buffer request consumed now loop keys found parsed is)
        spares h =
      absurd spares
  goes-IsHistory cs last s t (visit_key i rest request loop key keys count found) spares h =
      absurd spares
  goes-IsHistory cs last s t (end_loop i rest request loop count found) spares h = absurd spares
  goes-IsHistory cs last s t (log_command i rest text result found) spares h =
      logs-IsHistory platform reserve_limit depth w m cs last s i rest text result found h
  goes-IsHistory cs last s t (reply_sent i rest result found plain open') spares h =
      moves-IsHistory platform reserve_limit depth w m cs last s s.world.connected_clients i
        (replying rest result) _ (λ old e. e) refl found h
  goes-IsHistory cs last s t (start_stream i rest result found is) spares h =
      moves-IsHistory platform reserve_limit depth w m cs last s s.world.connected_clients i
        (replying rest result) _ (λ old e. e) refl found h
  goes-IsHistory cs last s t (stream i offset state found) spares h =
      moves-IsHistory platform reserve_limit depth w m cs last s s.world.connected_clients i
        (syncing offset state) _ (λ old e. e) refl found h
  goes-IsHistory cs last s t (end_thread i p found may) spares h =
      ends-IsHistory cs last s _ i p may found h
  goes-IsHistory cs last s t (sweep_shards now owns) spares h = absurd spares

  -- Clients that send SET, GET, INCR and DECR to a primary at once, in any interleaving of their
  -- threads and with the sweeper between them: in every state that is reached the store shows what
  -- the commands mean on the abstract map, one after the other in the order in which they got to
  -- the storage engine; and the log, with what waits between the storage engine and the log, holds
  -- the prints of a permutation of these commands without some that changed nothing at their turn:
  -- so no command that changed something is lost, and none is logged twice. No key stands twice
  -- either. At the start there is a shard, no memory limit and no client, no key stands twice, the
  -- log is open, and the contents have no deadlines; the clock of the storage engine and the
  -- sweeper never falls.
  pub Run-IsHistory :
      (cs : List Command) (last : ℕ) (s : System)
      → Unbounded w.storage.shards w.storage.max_memory_bytes
      → HasUniqueKeys w.storage
      → Shows platform 0 w.storage m
      → w.aof.is_open ≡ true
      → Run platform reserve_limit depth w cs last s
      → IsHistory platform reserve_limit depth w m cs last s
  unfolding serialize_items
  Run-IsHistory cs last s u keys shows open' begins = record {
    unbounded = u;
    keys = keys;
    shows = shows;
    is_open = open';
    effective = [];
    same = nothing_yet;
    logged = [];
    file = sym (append-nil w.aof.file);
    waiting = [];
    waits = refl;
    permuted = Perm.refl [];
  }
  Run-IsHistory cs last s u keys shows open'
        (stores before i buffer c consumed now now_log sampler found parsed plain le) =
      stores_command-IsHistory _ _ _ i buffer c consumed now now_log sampler found le
        (Run-IsHistory _ _ _ u keys shows open' before)
  Run-IsHistory cs last s u keys shows open' (sweeps before now owns le) =
      sweeps-IsHistory cs _ _ now owns le (Run-IsHistory cs _ _ u keys shows open' before)
  Run-IsHistory cs last s u keys shows open' (goes before step spares) =
      goes-IsHistory cs last _ s step spares (Run-IsHistory cs last _ u keys shows open' before)
