-- ===== src/Server/SystemHistory.antt =====
-- Clients that send commands to a primary at once (src/server/Server.cpp), and the history of the store.
use distributed_in_memory_ke.Prelude.{
  none, ℕ, ◌≤◌, ◌≡◌, ◌∙◌, ap, sym, refl, Bool, true, List, [], ◌∷◌, ◌++◌, append_assoc, Bytes, drop,
  set, subst,
}
use mathlib.Core.List.{Perm}
use mathlib.Core.List.Perm
use distributed_in_memory_ke.Protocol.Value.{serialize_items}
use distributed_in_memory_ke.Protocol.Parser.{value, parse}
use distributed_in_memory_ke.Storage.Entry.{Platform}
use distributed_in_memory_ke.Storage.Evict.{Sampler}
use distributed_in_memory_ke.Storage.AofLogger.{log}
use distributed_in_memory_ke.Storage.Sweeper.{sweep}
use distributed_in_memory_ke.Storage.Meaning.{Contents, Shows, Unbounded}
use distributed_in_memory_ke.Storage.UniqueOperations.{HasUniqueKeys}
use distributed_in_memory_ke.Server.State.{World, DispatchResult}
use distributed_in_memory_ke.Server.Dispatch.{dispatch}
use distributed_in_memory_ke.Server.Commands.{Command, request_of, meaning}
use distributed_in_memory_ke.Server.Serving.{requests_of, meaning_all, log-open}
use distributed_in_memory_ke.Server.System.{
  Phase, reading, storing, replying, System, IsAt, primary_call, loop_of, start_loop, visit_key,
  end_loop, store_outcome, Step, store_command, sweep_shards,
}
use distributed_in_memory_ke.Server.SystemLog.{requests_of-append, HoldsText, Waits, Waits-set}

-- The commands in their order without some that have changed nothing at their turn.
pub data Thins (m : Contents) : List Command → List Command → Type 0 where
  nothing_yet : Thins m [] []
  skips :
      {cs ds : List Command}
      → Thins m cs ds
      → (c : Command) → meaning c (meaning_all cs m) ≡ meaning_all cs m
      → Thins m (cs ++ c ∷ []) ds
  takes :
      {cs ds : List Command} → Thins m cs ds → (c : Command) → Thins m (cs ++ c ∷ []) (ds ++ c ∷ [])

module _ (platform : Platform) (reserve_limit depth : ℕ) where
  -- A step that is not on the storage engine, nor a step of DEL or EXISTS.
  abbrev pub SparesStore : {s t : System} → Step platform reserve_limit depth s t → Type 0
  SparesStore (store_command i buffer request consumed now now_log sampler found parsed plain) = ⊥
  SparesStore (start_loop i buffer request consumed now loop keys found parsed is) = ⊥
  SparesStore (visit_key i rest request loop key keys count found) = ⊥
  SparesStore (end_loop i rest request loop count found) = ⊥
  SparesStore (sweep_shards now owns) = ⊥
  SparesStore _ = Unit

  -- Steps from a start on in which clients send commands, with the commands in the order in which they
  -- get to the storage engine and the last time of the clock, which does not fall.
  pub data Run (w : World) : List Command → ℕ → System → Type 0 where
    begins : Run w [] 0 (record { world = w; clients = [] })
    stores :
        {cs : List Command} {last : ℕ} {s : System}
        → Run w cs last s
        → (i : ℕ) (buffer : Bytes) (c : Command) (consumed now now_log : ℕ) (sampler : Sampler)
        → IsAt s i (reading buffer)
        → parse reserve_limit depth buffer ≡ value (request_of c) consumed
        → loop_of now (request_of c) ≡ none
        → last ≤ now
        → Run w (cs ++ c ∷ []) now (
            store_outcome i
              (drop consumed buffer)
              s
              (dispatch platform (primary_call now now_log sampler) (request_of c) s.world))
    sweeps :
        {cs : List Command} {last : ℕ} {s : System}
        → Run w cs last s
        → (now : ℕ) (owns : ℕ → Bool) → last ≤ now
        → Run w cs now (record s {
          world = record s.world { storage = sweep now owns platform s.world.storage };
        })
    goes :
        {cs : List Command} {last : ℕ} {s t : System}
        → Run w cs last s
        → (step : Step platform reserve_limit depth s t) → SparesStore step
        → Run w cs last t

  -- The store shows what the commands mean. The log, behind what it held before, with what waits for
  -- it, is a permutation of the commands without some that changed nothing.
  pub record IsHistory (w : World) (m : Contents) (cs : List Command) (last : ℕ) (s : System)
      : Type 0 where
    pub unbounded : Unbounded s.world.storage.shards s.world.storage.max_memory_bytes
    pub keys : HasUniqueKeys s.world.storage
    pub shows : Shows platform last s.world.storage (meaning_all cs m)
    pub is_open : s.world.aof.is_open ≡ true
    pub effective : List Command
    pub same : Thins m cs effective
    pub logged : List Command
    pub file : s.world.aof.file ≡ w.aof.file ++ serialize_items (requests_of logged)
    pub waiting : List Command
    pub waits : Waits s.clients waiting
    pub permuted : Perm (logged ++ waiting) effective

  -- A thread that moves between phases without text.
  pub moves-IsHistory :
      (w : World) (m : Contents) (cs : List Command) (last : ℕ) (s : System) (connected i : ℕ)
      (p q : Phase)
      → ((old : List Command) → HoldsText p old → old ≡ [])
      → HoldsText q []
      → IsAt s i p
      → IsHistory w m cs last s
      → IsHistory w m cs last (record {
        world = record s.world { connected_clients = connected };
        clients = set s.clients i q;
      })
  moves-IsHistory w m cs last s connected i p q silent holds found h =
      let (old, others, waiting', held, waits', was, is) =
        Waits-set s.clients i p q h.waiting [] found h.waits holds in
      let was' : Perm h.waiting others =
        subst (λ l. Perm h.waiting (l ++ others)) (silent old held) was in
      record {
        unbounded = h.unbounded;
        keys = h.keys;
        shows = h.shows;
        is_open = h.is_open;
        effective = h.effective;
        same = h.same;
        logged = h.logged;
        file = h.file;
        waiting = waiting';
        waits = waits';
        permuted =
            Perm.trans (Perm.append_left h.logged (Perm.trans is (Perm.symm was'))) h.permuted;
      }

  -- The text of a command is logged.
  pub logs-IsHistory :
      (w : World) (m : Contents) (cs : List Command) (last : ℕ) (s : System) (i : ℕ)
      (rest text : Bytes) (result : DispatchResult)
      → IsAt s i (storing rest text result)
      → IsHistory w m cs last s
      → IsHistory w m cs last (record {
        world = record s.world { aof = log text s.world.aof };
        clients = set s.clients i (replying rest result);
      })
  logs-IsHistory w m cs last s i rest text result found h =
      let (old, others, waiting', held, waits', was, is) =
        Waits-set s.clients i (storing rest text result) (replying rest result) h.waiting [] found
          h.waits refl in
      let aof = log-open text s.world.aof h.is_open in
      record {
        unbounded = h.unbounded;
        keys = h.keys;
        shows = h.shows;
        is_open = ap (λ a. a.is_open) aof;
        effective = h.effective;
        same = h.same;
        logged = h.logged ++ old;
        file =
            ap (λ a. a.file) aof
            ∙ rw (h.file, held, requests_of-append h.logged old)
                (append_assoc w.aof.file (serialize_items (requests_of h.logged))
                  (serialize_items (requests_of old)));
        waiting = waiting';
        waits = waits';
        permuted =
            Perm.trans
              (subst (λ l. Perm l (h.logged ++ h.waiting))
                (sym (append_assoc h.logged old waiting'))
                (Perm.append_left h.logged (Perm.trans (Perm.append_left old is) (Perm.symm was))))
              h.permuted;
      }
