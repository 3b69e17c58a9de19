-- ===== src/Server/SystemLog.antt =====
-- What the log of concurrent clients holds (src/server/CommandDispatcher.cpp, src/server/Server.cpp): each
-- command once, in the order of the log steps.
use distributed_in_memory_ke.Prelude.{
  ℕ, zero, suc, ◌≡◌, ◌∙◌, ap, sym, refl, some, List, [], ◌∷◌, ◌++◌, append_assoc, get_elem?, set,
  subst,
}
use mathlib.Core.List.{Perm}
use mathlib.Core.List.Perm
use mathlib.Core.List.Permᴰ
use distributed_in_memory_ke.Protocol.Value.{serialize, serialize_items}
use distributed_in_memory_ke.Server.Commands.{Command, request_of, meaning}
use distributed_in_memory_ke.Storage.Meaning.{Contents}
use distributed_in_memory_ke.Server.Serving.{requests_of, meaning_all}
use distributed_in_memory_ke.Server.System.{Phase, reading, storing}

pub requests_of-append :
    (es cs : List Command)
    → serialize_items (requests_of (es ++ cs))
      ≡ serialize_items (requests_of es) ++ serialize_items (requests_of cs)
unfolding serialize
requests_of-append [] cs = refl
requests_of-append (c ∷ es) cs =
    ap (λ s. serialize (request_of c) ++ s) (requests_of-append es cs)
    ∙ sym (append_assoc (serialize (request_of c)) _ _)

pub meaning_all-append :
    (es cs : List Command) (m : Contents)
    → meaning_all (es ++ cs) m ≡ meaning_all cs (meaning_all es m)
meaning_all-append [] cs m = refl
meaning_all-append (c ∷ es) cs m = meaning_all-append es cs (meaning c m)

pub left_comm : (xs ys zs : List Command) → Perm (xs ++ (ys ++ zs)) (ys ++ (xs ++ zs))
left_comm xs ys zs =
    subst (λ l. Perm l (ys ++ (xs ++ zs))) (append_assoc xs ys zs)
      (subst (Perm ((xs ++ ys) ++ zs)) (append_assoc ys xs zs)
        (Perm.append_right zs ∣ Permᴰ.append_comm xs ys ∣₁))

-- The commands whose text waits between the storage engine and the log.
abbrev pub HoldsText : Phase → List Command → Type 0
HoldsText (storing rest text result) cs = text ≡ serialize_items (requests_of cs)
HoldsText _ cs = cs ≡ []

abbrev pub Waits : List Phase → List Command → Type 0
Waits [] ws = ws ≡ []
Waits (p ∷ clients) ws =
    (cs more : List Command) × HoldsText p cs × Waits clients more × (ws ≡ cs ++ more)

-- One thread moves on.
pub Waits-set :
    (clients : List Phase) (i : ℕ) (p q : Phase) (ws new : List Command)
    → get_elem? clients i ≡ some p
    → Waits clients ws
    → HoldsText q new
    → (old others ws' : List Command) × HoldsText p old
      × Waits (set clients i q) ws'
      × Perm ws (old ++ others)
      × Perm ws' (new ++ others)
Waits-set [] i p q ws new found h t = cc
Waits-set (x ∷ clients) zero p q ws new found (old, more, held, rest, e) t =
    let same : x ≡ p = cc in
    (
      old,
      more,
      new ++ more,
      subst (λ y. HoldsText y old) same held,
      (new, more, t, rest, refl),
      rw e (Perm.refl (old ++ more)),
      Perm.refl (new ++ more),
    )
Waits-set (x ∷ clients) (suc i) p q ws new found (here, more, held, rest, e) t =
    let (old, others, more', held', rest', was, is) =
      Waits-set clients i p q more new found rest t in
    (
      old,
      here ++ others,
      here ++ more',
      held',
      (here, more', held, rest', refl),
      rw e (Perm.trans (Perm.append_left here was) (left_comm here old others)),
      Perm.trans (Perm.append_left here is) (left_comm here new others),
    )

pub Waits-accept :
    (clients : List Phase) (ws : List Command)
    → Waits clients ws
    → Waits (clients ++ reading [] ∷ []) ws
Waits-accept [] ws e = ([], [], refl, refl, e)
Waits-accept (p ∷ clients) ws (cs, more, held, rest, e) =
    (cs, more, held, Waits-accept clients more rest, e)
