-- ===== src/Storage/Eviction.antt =====
-- What a round of `evict_from_shard` (src/storage/StorageEngine.cpp) may do to the engine.
use distributed_in_memory_ke.Prelude.{
  ◌≤◌, ◌<◌, ◌≡◌, ◌≢◌, ◌⊎◌, ap, sym, refl, ◌∙◌, Bool, true, false, Option, none, [], ◌∷◌, arith,
  Bytes, bytes_eq, length, Bool-cases, inl, inr, if◌then◌else◌, ◌==◌, length-set,
}
use distributed_in_memory_ke.Storage.Entry.{CppString, DictEntry, Platform}
use distributed_in_memory_ke.Storage.Dict.{Node, Dict, find, erase, contains, entry_of, find-erase}
use distributed_in_memory_ke.Storage.Shards.{
  get_shard_index, shard_of, node_at, entry_at, shard_of-write_same, shard_of-write_other,
}
use distributed_in_memory_ke.Storage.Evict.{Engine, evict_node}
use distributed_in_memory_ke.Storage.Live.{HasShards}

length-erase_le : (k : Bytes) (d : Dict) → length (erase k d) ≤ length d
unfolding erase
length-erase_le k [] = omega arith
length-erase_le k ((i, entry) ∷ d) = ground (arith, length-erase_le k d)

pub length-erase_lt : (k : Bytes) (d : Dict) → contains k d ≡ true → length (erase k d) < length d
unfolding erase find
length-erase_lt k [] h = cc
length-erase_lt k ((i, entry) ∷ d) h = ground (arith, length-erase_le k d, length-erase_lt k d)

entry_of-kept :
    (b : Bool) (found : Option Node)
    → (entry_of (if b then none else found) ≡ entry_of found)
      ⊎ (entry_of (if b then none else found) ≡ none)
entry_of-kept true found = inr refl
entry_of-kept false found = inl refl

module _ (platform : Platform) (key : Bytes) where
  -- The second engine is the first after entries were removed from the shard of `key`.
  pub record Evicted (e e' : Engine) : Type 0 where
    pub shard_count : length e'.shards ≡ length e.shards
    pub limit : e'.max_memory_bytes ≡ e.max_memory_bytes
    -- No entry is changed.
    pub kept :
        (j : Bytes)
        → (entry_at platform e'.shards j ≡ entry_at platform e.shards j)
          ⊎ (entry_at platform e'.shards j ≡ none)
    -- The other shards are not touched.
    pub elsewhere :
        (j : Bytes)
        → (get_shard_index platform e.shards key ≡ get_shard_index platform e.shards j)
          ⊎ (entry_at platform e'.shards j ≡ entry_at platform e.shards j)

  pub Evicted-refl : (e : Engine) → Evicted e e
  Evicted-refl e = record {
    shard_count = refl;
    limit = refl;
    kept = λ j. inl refl;
    elsewhere = λ j. inr refl;
  }

  pub same_index :
      (e e' : Engine) (j : Bytes)
      → length e'.shards ≡ length e.shards
      → get_shard_index platform e'.shards j ≡ get_shard_index platform e.shards j
  unfolding get_shard_index
  same_index e e' j h = rw h

  abbrev Elsewhere : Engine → Engine → Bytes → Type 0
  Elsewhere e e' j =
      (get_shard_index platform e.shards key ≡ get_shard_index platform e.shards j)
      ⊎ (entry_at platform e'.shards j ≡ entry_at platform e.shards j)

  Elsewhere-trans :
      (e e' e'' : Engine) (j : Bytes)
      → length e'.shards ≡ length e.shards
      → Elsewhere e e' j
      → Elsewhere e' e'' j
      → Elsewhere e e'' j
  Elsewhere-trans e e' e'' j count (inl here) b = inl here
  Elsewhere-trans e e' e'' j count (inr a) (inl here) =
      inl (sym (same_index e e' key count) ∙ here ∙ same_index e e' j count)
  Elsewhere-trans e e' e'' j count (inr a) (inr b) = inr (b ∙ a)

  pub Evicted-trans : {e e' e'' : Engine} → Evicted e e' → Evicted e' e'' → Evicted e e''
  Evicted-trans {e} {e'} {e''} a b = record {
    shard_count = b.shard_count ∙ a.shard_count;
    limit = b.limit ∙ a.limit;
    kept = λ j. ground (arith, a.kept j, b.kept j);
    elsewhere = λ j. Elsewhere-trans e e' e'' j a.shard_count (a.elsewhere j) (b.elsewhere j);
  }

  not_there :
      (k : CppString) (entry : DictEntry) (e : Engine) (j : Bytes)
      → get_shard_index platform e.shards key ≢ get_shard_index platform e.shards j
      → entry_at platform (evict_node platform key (k, entry) e).shards j
        ≡ entry_at platform e.shards j
  unfolding entry_at
  not_there k entry e j n =
      ap (λ d. entry_of (find j d)) (shard_of-write_other platform e.shards key j _ n)

  entry_at-same :
      (k : CppString) (entry : DictEntry) (e : Engine) (j : Bytes)
      → HasShards e
      → get_shard_index platform e.shards key ≡ get_shard_index platform e.shards j
      → entry_at platform (evict_node platform key (k, entry) e).shards j
        ≡ entry_of (if bytes_eq k.chars j then none else node_at platform e.shards j)
  unfolding entry_at
  entry_at-same k entry e j h same =
      ap (λ d. entry_of (find j d)) (shard_of-write_same platform e.shards key j _ h same)
      ∙ ap entry_of (find-erase k.chars j (shard_of platform e.shards key))
      ∙ rw same

  kept_here :
      (k : CppString) (entry : DictEntry) (e : Engine) (j : Bytes)
      → HasShards e
      → get_shard_index platform e.shards key ≡ get_shard_index platform e.shards j
      → (entry_at platform (evict_node platform key (k, entry) e).shards j
          ≡ entry_at platform e.shards j)
        ⊎ (entry_at platform (evict_node platform key (k, entry) e).shards j ≡ none)
  kept_here k entry e j h same =
      rw (entry_at-same k entry e j h same)
        (unfold entry_at in entry_of-kept (bytes_eq k.chars j) (node_at platform e.shards j))

  pub evict_node-Evicted :
      (k : CppString) (entry : DictEntry) (e : Engine)
      → HasShards e
      → Evicted e (evict_node platform key (k, entry) e)
  evict_node-Evicted k entry e h = record {
    shard_count = length-set e.shards _ _;
    limit = refl;
    kept = λ j.
        elim (Bool-cases
          (get_shard_index platform e.shards key == get_shard_index platform e.shards j)) [
            | inl same ↦ kept_here k entry e j h (ground arith)
            | inr other ↦ inl (not_there k entry e j (λ p. ground arith))
          ];
    elsewhere = λ j.
        elim (Bool-cases
          (get_shard_index platform e.shards key == get_shard_index platform e.shards j)) [
            | inl same ↦ inl (ground arith)
            | inr other ↦ inr (not_there k entry e j (λ p. ground arith))
          ];
  }
