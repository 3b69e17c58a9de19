-- ===== src/Storage/Entry.antt =====
-- String objects, and `DictEntry` (include/storage/DictEntry.h).
use distributed_in_memory_ke.Prelude.{
  ℕ, ◌+◌, ◌-◌, ◌%◌, ◌<◌, ◌≡◌, Bool, ◌&&◌, arith, ltb, leb, two64, Bytes,
}

-- A `std::string`: its contents and its capacity, which the program reads in `entry_cost` and which
-- the contents alone do not determine.
pub record CppString : Type 0 where
  pub chars : Bytes
  pub capacity : ℕ

-- What the C++ implementation fixes: the hash of a string, the size of a `DictEntry`, and the
-- capacity of strings that are built, copied, or overwritten. The laws say what the standard says
-- of the contents; it says nothing of the capacities that the program relies on.
pub record Platform : Type 0 where
  pub hash : Bytes → ℕ
  pub sizeof_entry : ℕ
  -- A string built from its contents.
  pub make : Bytes → CppString
  -- Copy construction.
  pub copy : CppString → CppString
  -- Copy assignment and move assignment: the target, then the source.
  pub assign : CppString → CppString → CppString
  pub move_assign : CppString → CppString → CppString
  pub make_chars : (s : Bytes) → (make s).chars ≡ s
  pub copy_chars : (s : CppString) → (copy s).chars ≡ s.chars
  pub assign_chars : (t s : CppString) → (assign t s).chars ≡ s.chars
  pub move_assign_chars : (t s : CppString) → (move_assign t s).chars ≡ s.chars

pub record DictEntry : Type 0 where
  pub value : CppString
  pub expire_at_ms : ℕ
  pub last_access_ms : ℕ

-- `expire_at_ms > 0 && expire_at_ms <= now`, the test of every operation.
abbrev pub is_expired : DictEntry → ℕ → Bool
is_expired entry now = ltb 0 entry.expire_at_ms && leb entry.expire_at_ms now

-- A `size_t` sum and difference.
abbrev pub add_size : ℕ → ℕ → ℕ
add_size a b = (a + b) % two64

abbrev pub sub_size : ℕ → ℕ → ℕ
sub_size a b = (a + two64 - b) % two64

module _ (platform : Platform) where
  -- 32 stands for the overhead of a node of `std::unordered_map`.
  unfoldable pub entry_cost : CppString → CppString → ℕ
  entry_cost key value = (key.capacity + value.capacity + platform.sizeof_entry + 32) % two64

  pub entry_cost-lt : (key value : CppString) → entry_cost key value < two64
  unfolding entry_cost
  entry_cost-lt key value = omega arith
