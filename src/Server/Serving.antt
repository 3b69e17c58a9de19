-- ===== src/Server/Serving.antt =====
-- A primary that serves the commands of a client, and its log (src/server/CommandDispatcher.cpp,
-- src/server/Server.cpp).
use distributed_in_memory_ke.Prelude.{
  ℕ, suc, ◌+◌, ◌≤◌, ◌≡◌, ◌⊎◌, ◌∙◌, ap, sym, refl, subst, true, false, not, ◌&&◌, inl, inr, List, [],
  ◌∷◌, ◌++◌, append-nil, append_assoc, arith, Bytes, length, length-append,
}
use distributed_in_memory_ke.Protocol.Value.{RespValues, nil, cons, serialize, serialize_items}
use distributed_in_memory_ke.Protocol.RoundTrip.{IsFrames}
use distributed_in_memory_ke.Storage.Entry.{Platform}
use distributed_in_memory_ke.Storage.AofLogger.{AofLogger, log}
use distributed_in_memory_ke.Storage.Meaning.{Contents, timeless-injective, Shows, Unbounded}
use distributed_in_memory_ke.Net.Connection.{Connection}
use distributed_in_memory_ke.Server.State.{World, Call, count_command}
use distributed_in_memory_ke.Server.ReadOnly.{commands-Unseen}
use distributed_in_memory_ke.Server.Logging.{
  RecordedAsIs, set-RecordedAsIs, del-RecordedAsIs, incr-RecordedAsIs, decr-RecordedAsIs,
}
use distributed_in_memory_ke.Server.Dispatch.{dispatch}
use distributed_in_memory_ke.Server.Client.{ClientEnvironment, client_call}
use distributed_in_memory_ke.Server.Commands.{
  Command, set_to, get_of, del_of, incr_of, decr_of, values_of, request_of, meaning, handled,
  dispatch-handled, dispatch-Shows,
}

abbrev pub requests_of : List Command → RespValues
requests_of [] = nil
requests_of (c ∷ cs) = cons (request_of c) (requests_of cs)

abbrev pub meaning_all : List Command → Contents → Contents
meaning_all [] m = m
meaning_all (c ∷ cs) m = meaning_all cs (meaning c m)

module _ (platform : Platform) (call : Call) (on : call.has_aof ≡ true)
    (checked : call.bypass_readonly ≡ false)
    (writes : (call.is_read_only && not call.bypass_readonly) ≡ false) where
  handled-RecordedAsIs :
      (c : Command) (w : World)
      → Unbounded w.storage.shards w.storage.max_memory_bytes
      → RecordedAsIs platform call.now (request_of c) w (handled platform call writes c w)
  handled-RecordedAsIs (set_to k s) w u = set-RecordedAsIs platform call on checked _ w u.0 u.1
  handled-RecordedAsIs (get_of k) w u =
      inl (commands-Unseen platform call (values_of (get_of k)) w u.0).get
  handled-RecordedAsIs (del_of k ks) w u = del-RecordedAsIs platform call on checked _ w u.0 u.1
  handled-RecordedAsIs (incr_of k) w u = incr-RecordedAsIs platform call on checked _ w u.0 u.1
  handled-RecordedAsIs (decr_of k) w u = decr-RecordedAsIs platform call on checked _ w u.0 u.1

  -- A command that is not logged means nothing for the contents.
  pub dispatch-logs :
      (c : Command) (since : ℕ) (w : World) (m : Contents)
      → Unbounded w.storage.shards w.storage.max_memory_bytes
      → Shows platform since w.storage m
      → since ≤ call.now
      → (((dispatch platform call (request_of c) w).0.aof ≡ w.aof) × (meaning c m ≡ m))
        ⊎ ((dispatch platform call (request_of c) w).0.aof ≡ log (serialize (request_of c)) w.aof)
  dispatch-logs c since w m u shows later =
      let out = dispatch platform call (request_of c) w in
      let recorded : RecordedAsIs platform call.now (request_of c) w out =
        subst (RecordedAsIs platform call.now (request_of c) w)
          (sym (dispatch-handled platform call writes c w))
          (handled-RecordedAsIs c (count_command w) u) in
      elim recorded [
        | inr logged ↦ inr logged
        | inl (same, unseen) ↦
            let shows' = (dispatch-Shows platform call writes c since w m u shows later).1 in
            let pointwise : (j : Bytes) → meaning c m j ≡ m j = λ j.
              timeless-injective (meaning c m j) (m j) (
                sym (shows' (call.now + 0) j (omega arith))
                ∙ unseen 0 j
                ∙ shows (call.now + 0) j (omega arith)) in
            inl (same, λ i j. pointwise j i)
      ]

abbrev pub NeverFalls : (ℕ → ℕ) → Type 0
NeverFalls clock = (n : ℕ) → clock n ≤ clock (suc n)

module _ (platform : Platform) (env : ClientEnvironment) (conn : Connection) where
  -- The commands of a client, one after the other, on a primary.
  abbrev pub serve : ℕ → List Command → World → World
  serve n [] w = w
  serve n (c ∷ cs) w =
      serve (suc n) cs
        (dispatch platform (client_call platform false env conn n) (request_of c) w).0

-- What has been logged means what has been done.
abbrev pub Logged : Platform → ℕ → ℕ → List Command → World → World → Contents → Type 0
Logged platform reserve_limit bound cs w w' m =
    (ds : List Command) × IsFrames reserve_limit (requests_of ds)
    × (w'.aof ≡ record { is_open = true; file = w.aof.file ++ serialize_items (requests_of ds) })
    × (length (serialize_items (requests_of ds)) ≤ length (serialize_items (requests_of cs)))
    × (meaning_all ds m ≡ meaning_all cs m)
    × Shows platform bound w'.storage (meaning_all cs m)

pub Shows-later :
    (platform : Platform) (since bound : ℕ) (w : World) (m : Contents)
    → since ≤ bound
    → Shows platform since w.storage m
    → Shows platform bound w.storage m
Shows-later platform since bound w m le shows t j past = shows t j (omega arith)

pub log-open :
    (text : Bytes) (aof : AofLogger)
    → aof.is_open ≡ true
    → log text aof ≡ record { is_open = true; file = aof.file ++ text }
unfolding log
log-open text aof open' = rw open'

pub nothing_logged :
    (aof : AofLogger) → aof.is_open ≡ true → aof ≡ record { is_open = true; file = aof.file ++ [] }
nothing_logged aof open' = λ i. record { is_open = open' i; file = sym (append-nil aof.file) i }

module _ (platform : Platform) (reserve_limit : ℕ) (env : ClientEnvironment) (conn : Connection)
    (rises : NeverFalls env.clock) (bound : ℕ) (within : (n : ℕ) → env.clock n ≤ bound) where
  pub serve-Logged :
      (cs : List Command) (n since : ℕ) (w : World) (m : Contents)
      → IsFrames reserve_limit (requests_of cs)
      → Unbounded w.storage.shards w.storage.max_memory_bytes
      → w.aof.is_open ≡ true
      → Shows platform since w.storage m
      → since ≤ env.clock n
      → Logged platform reserve_limit bound cs w (serve platform env conn n cs w) m
  unfolding serialize
  serve-Logged [] n since w m oks u open' shows later =
      let below = within n in
      (
        [],
        tt,
        nothing_logged w.aof open',
        omega arith,
        refl,
        Shows-later platform since bound w m (omega arith) shows,
      )
  serve-Logged (c ∷ cs) n since w m oks u open' shows later =
      let call = client_call platform false env conn n in
      let w' = (dispatch platform call (request_of c) w).0 in
      let (u', shows') = dispatch-Shows platform call refl c since w m u shows later in
      elim (dispatch-logs platform call refl refl refl c since w m u shows later) [
        | inl (same, nothing) ↦
            let open'' : w'.aof.is_open ≡ true = ap (λ a. a.is_open) same ∙ open' in
            let (ds, oks', aof', le, all', shows'') =
              serve-Logged cs (suc n) (env.clock n) w' (meaning c m) oks.1 u' open'' shows'
                (rises n) in
            (
              ds,
              oks',
              aof'
                  ∙ ap
                      (λ a. record {
                        is_open = true;
                        file = a.file ++ serialize_items (requests_of ds);
                      })
                      same,
              omega (
                arith,
                le,
                length-append (serialize (request_of c)) (serialize_items (requests_of cs)),
              ),
              ap (meaning_all ds) (sym nothing) ∙ all',
              shows'',
            )
        | inr logged ↦
            let aof : w'.aof
                ≡ record { is_open = true; file = w.aof.file ++ serialize (request_of c) } =
              logged ∙ log-open (serialize (request_of c)) w.aof open' in
            let open'' : w'.aof.is_open ≡ true = ap (λ a. a.is_open) aof in
            let (ds, oks', aof', le, all', shows'') =
              serve-Logged cs (suc n) (env.clock n) w' (meaning c m) oks.1 u' open'' shows'
                (rises n) in
            (
              c ∷ ds,
              (oks.0, oks'),
              aof'
                  ∙ ap
                      (λ a. record {
                        is_open = true;
                        file = a.file ++ serialize_items (requests_of ds);
                      })
                      aof
                  ∙ ap (λ s. record { is_open = true; file = s })
                      (append_assoc w.aof.file (serialize (request_of c))
                        (serialize_items (requests_of ds))),
              omega (
                arith,
                le,
                length-append (serialize (request_of c)) (serialize_items (requests_of cs)),
                length-append (serialize (request_of c)) (serialize_items (requests_of ds)),
              ),
              all',
              shows'',
            )
      ]
