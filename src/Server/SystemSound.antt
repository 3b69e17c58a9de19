-- ===== src/Server/SystemSound.antt =====
-- What is kept of a primary and its threads (src/server/Server.cpp): the notion, and threads that run
-- on or end.
use distributed_in_memory_ke.Prelude.{
  ℕ, zero, suc, ◌+◌, ◌%◌, ◌^◌, ◌-◌, ◌≡◌, ◌∙◌, sym, refl, some, List, [], ◌∷◌, ◌++◌, append-nil,
  arith, Bytes, get_elem?, set, All, All-set, All-imp, subst,
}
use distributed_in_memory_ke.Protocol.Value.{RespValue, RespValues, serialize_items}
use distributed_in_memory_ke.Protocol.RoundTrip.{IsFrame, IsFrames}
use distributed_in_memory_ke.Protocol.Sequence.{
  append_values, serialize_items-append_values, IsFrames-append_values,
}
use distributed_in_memory_ke.Protocol.Parser.{value, parse}
use distributed_in_memory_ke.Protocol.Closed.{Yields, parse-IsFrame}
use distributed_in_memory_ke.Storage.AofLogger.{AofLogger, log}
use distributed_in_memory_ke.Storage.UniqueOperations.{HasUniqueKeys}
use distributed_in_memory_ke.Server.State.{World}
use distributed_in_memory_ke.Server.Branches.{if-cases}
use distributed_in_memory_ke.Server.LogFrames.{HoldsFrames}
use distributed_in_memory_ke.Server.PsyncStream.{seek}
use distributed_in_memory_ke.Server.Follow.{IsFollowing, append-IsFollowing}
use distributed_in_memory_ke.Server.System.{
  Phase, reading, visiting, storing, replying, syncing, gone, System, IsAt, move, leave,
}

-- The threads that have not ended.
abbrev pub is_alive : Phase → ℕ
is_alive gone = 0
is_alive _ = 1

abbrev pub alive : List Phase → ℕ
alive [] = 0
alive (p ∷ clients) = is_alive p + alive clients

pub alive-append : (xs ys : List Phase) → alive (xs ++ ys) ≡ alive xs + alive ys
alive-append [] ys = omega arith
alive-append (p ∷ xs) ys = omega (arith, alive-append xs ys)

alive-set :
    (clients : List Phase) (i : ℕ) (p q : Phase)
    → get_elem? clients i ≡ some p
    → alive (set clients i q) + is_alive p ≡ alive clients + is_alive q
alive-set [] i p q found = cc
alive-set (x ∷ clients) zero p q found = let same : x ≡ p = cc in rw (← same) (omega arith)
alive-set (x ∷ clients) (suc i) p q found = omega (arith, alive-set clients i p q found)

module _ (reserve_limit : ℕ) where
  abbrev pub IsText : Bytes → Type 0
  IsText text = (vs : RespValues) × IsFrames reserve_limit vs × (text ≡ serialize_items vs)

  append-IsText : (s text : Bytes) → IsText s → IsText text → IsText (s ++ text)
  append-IsText s text (ws, oks, same) (vs, oks', same') = (
    append_values ws vs,
    IsFrames-append_values reserve_limit ws vs oks oks',
    rw (same, same') (sym (serialize_items-append_values ws vs)),
  )

  -- What a thread holds, beside a log.
  abbrev pub IsSoundAt : Bytes → Phase → Type 0
  IsSoundAt file (visiting rest request loop keys count) = IsFrame reserve_limit request
  IsSoundAt file (storing rest text result) = IsText text
  IsSoundAt file (syncing offset state) = IsFollowing (seek offset).position file state
  IsSoundAt file _ = Unit

  append-IsSoundAt : (file more : Bytes) (p : Phase) → IsSoundAt file p → IsSoundAt (file ++ more) p
  append-IsSoundAt file more (reading buffer) h = tt
  append-IsSoundAt file more (visiting rest request loop keys count) h = h
  append-IsSoundAt file more (storing rest text result) h = h
  append-IsSoundAt file more (replying rest result) h = tt
  append-IsSoundAt file more (syncing offset state) h =
      append-IsFollowing (seek offset).position file more state h
  append-IsSoundAt file more gone h = tt

  -- No key stands twice; the log is a sequence of printed frames, and so is what waits for it; each
  -- replica is sent the log from its offset on; the clients are counted.
  pub record IsSound (s : System) : Type 0 where
    pub keys : HasUniqueKeys s.world.storage
    pub frames : HoldsFrames reserve_limit s.world.aof
    pub threads : All (IsSoundAt s.world.aof.file) s.clients
    pub counted : s.world.connected_clients ≡ alive s.clients % 2 ^ 32

  pub log-cases :
      (text : Bytes) (aof : AofLogger)
      → HoldsFrames reserve_limit aof
      → IsText text
      → HoldsFrames reserve_limit (log text aof)
        × ((more : Bytes) × ((log text aof).file ≡ aof.file ++ more))
  unfolding log
  log-cases text aof h is =
      if-cases
        (λ (a : AofLogger).
          HoldsFrames reserve_limit a × ((more : Bytes) × (a.file ≡ aof.file ++ more)))
        aof.is_open (λ on. (append-IsText aof.file text h is, (text, refl)))
        (λ off. (h, ([], sym (append-nil aof.file))))

  grown_threads :
      (file file' more : Bytes) (clients : List Phase)
      → file' ≡ file ++ more
      → All (IsSoundAt file) clients
      → All (IsSoundAt file') clients
  grown_threads file file' more clients same h =
      rw same
        (All-imp (IsSoundAt file) (IsSoundAt (file ++ more)) clients (append-IsSoundAt file more) h)

  -- A thread that runs on, in a world whose log has grown.
  pub runs_on :
      (s : System) (w : World) (i : ℕ) (p q : Phase)
      → IsAt s i p
      → is_alive p ≡ 1
      → is_alive q ≡ 1
      → IsSound s
      → HasUniqueKeys w.storage
      → HoldsFrames reserve_limit w.aof × ((more : Bytes) × (w.aof.file ≡ s.world.aof.file ++ more))
      → w.connected_clients ≡ s.world.connected_clients
      → IsSoundAt w.aof.file q
      → IsSound (record { world = w; clients = set s.clients i q })
  runs_on s w i p q found on on' sound keys (frames, (more, same)) counted here =
      let level = alive-set s.clients i p q found in
      record {
        keys = keys;
        frames = frames;
        threads =
            All-set (IsSoundAt w.aof.file) s.clients i q
              (grown_threads s.world.aof.file w.aof.file more s.clients same sound.threads) here;
        counted =
            let same' : alive (set s.clients i q) ≡ alive s.clients = omega arith in
            rw same' (counted ∙ sound.counted);
      }

  -- A thread that runs on and changes nothing that is shared.
  pub moves :
      (s : System) (i : ℕ) (p q : Phase)
      → IsAt s i p
      → is_alive p ≡ 1
      → is_alive q ≡ 1
      → IsSound s
      → IsSoundAt s.world.aof.file q
      → IsSound (move i q s)
  moves s i p q found on on' sound here =
      runs_on s s.world i p q found on on' sound sound.keys
        (sound.frames, ([], sym (append-nil s.world.aof.file))) refl here

  pub joining : (n n' c : ℕ) → n' ≡ n + 1 → c ≡ n % 2 ^ 32 → (c + 1) % 2 ^ 32 ≡ n' % 2 ^ 32
  joining n n' c e h = omega arith

  leaving : (n n' c : ℕ) → n' + 1 ≡ n → c ≡ n % 2 ^ 32 → (c + (2 ^ 32 - 1)) % 2 ^ 32 ≡ n' % 2 ^ 32
  leaving n n' c e h = omega arith

  pub leaves :
      (s : System) (i : ℕ) (p : Phase)
      → IsAt s i p
      → is_alive p ≡ 1
      → IsSound s
      → IsSound (leave i s)
  leaves s i p found on sound = record {
    keys = sound.keys;
    frames = sound.frames;
    threads = All-set (IsSoundAt s.world.aof.file) s.clients i gone sound.threads tt;
    counted =
        leaving (alive s.clients) _ s.world.connected_clients
          (omega (arith, alive-set s.clients i p gone found)) sound.counted;
  }

  pub parse-value-IsFrame :
      (depth : ℕ) (buffer : Bytes) (request : RespValue) (consumed : ℕ)
      → parse reserve_limit depth buffer ≡ value request consumed
      → IsFrame reserve_limit request
  parse-value-IsFrame depth buffer request consumed found =
      subst (Yields (IsFrame reserve_limit)) found (parse-IsFrame reserve_limit depth buffer)
