-- ===== src/Storage/Dict.antt =====
-- `Shard::dict`, a `std::unordered_map<std::string, DictEntry>` (include/storage/StorageEngine.h): the
-- list of its nodes in the order of iteration. That order is unspecified in C++; here a new node
-- comes first.
use distributed_in_memory_ke.Prelude.{
  ◌≡◌, refl, Bool, true, false, Option, none, some, List, [], ◌∷◌, arith, if◌then◌else◌, Bytes,
  bytes_eq, bytes_eq_iff,
}
use distributed_in_memory_ke.Storage.Entry.{CppString, DictEntry}

abbrev pub Node : Type 0
Node = CppString × DictEntry

abbrev pub Dict : Type 0
Dict = List Node

-- `dict.find(key)`
unfoldable pub find : Bytes → Dict → Option Node
find key [] = none
find key ((k, entry) ∷ d) = if bytes_eq k.chars key then some (k, entry) else find key d

-- `dict.erase(it)` at the node of a key.
unfoldable pub erase : Bytes → Dict → Dict
erase key [] = []
erase key ((k, entry) ∷ d) =
    let rest = erase key d in if bytes_eq k.chars key then rest else (k, entry) ∷ rest

-- A write to the entry of a key that is there.
unfoldable pub update : Bytes → DictEntry → Dict → Dict
update key new [] = []
update key new ((k, entry) ∷ d) =
    if bytes_eq k.chars key then (k, new) ∷ d else (k, entry) ∷ update key new d

abbrev pub contains : Bytes → Dict → Bool
contains key d = elim (find key d) [ none ↦ false | some _ ↦ true ]

abbrev pub entry_of : Option Node → Option DictEntry
entry_of none = none
entry_of (some (k, entry)) = some entry

pub find-erase :
    (k j : Bytes) (d : Dict) → find j (erase k d) ≡ (if bytes_eq k j then none else find j d)
unfolding find erase
find-erase k j [] = ground arith
find-erase k j ((i, entry) ∷ d) =
    ground
      (arith, find-erase k j d, bytes_eq_iff i.chars k, bytes_eq_iff i.chars j, bytes_eq_iff k j)

-- An update reaches the key's own entry, if it is there.
pub find-update_ne :
    (k j : Bytes) (new : DictEntry) (d : Dict)
    → bytes_eq k j ≡ false
    → find j (update k new d) ≡ find j d
unfolding find update
find-update_ne k j new [] h = refl
find-update_ne k j new ((i, entry) ∷ d) h = ground (
  arith,
  find-update_ne k j new d,
  bytes_eq_iff i.chars k,
  bytes_eq_iff i.chars j,
  bytes_eq_iff k j,
)

pub find-update_self :
    (k : Bytes) (new : DictEntry) (d : Dict)
    → entry_of (find k (update k new d)) ≡ (if contains k d then some new else none)
unfolding find update
find-update_self k new [] = refl
find-update_self k new ((i, entry) ∷ d) = ground (arith, find-update_self k new d)
