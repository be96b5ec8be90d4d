-- ===== src/Trace/Cache.antt =====
-- vtr-rs/src/trace/cache.rs: the FIFO cache. The map is an association list; the iteration order of the
-- source's hash map is not observed. `expect` on an absent value is the result none.
pub mod Bounded
use vtr.Prelude.{
  ℕ, ◌+◌, ◌-◌, Bool, true, false, ◌||◌, Option, none, some, List, [], ◌∷◌, ◌++◌, length, ltb, leb,
  ◌==◌, if◌then◌else◌,
}

-- `expect` on the option, and what follows.
abbrev pub and_then {ℓ κ} : {A : Type ℓ} {B : Type κ} → Option A → (A → Option B) → Option B
and_then none f = none
and_then (some a) f = f a

-- A key with the size and the value that it is mapped to.
pub record Entry (K V : Type 0) : Type 0 where
  pub key : K
  pub size : ℕ
  pub value : V

pub record Cache (K V : Type 0) : Type 0 where
  pub entries : List (Entry K V)
  pub order : List K
  pub bytes : ℕ
  pub max_entries : ℕ
  pub max_bytes : ℕ

module _ {K V : Type 0} where
  abbrev pub new : ℕ → ℕ → Cache K V
  new max_entries max_bytes = record {
    entries = [];
    order = [];
    bytes = 0;
    max_entries = max_entries;
    max_bytes = max_bytes;
  }

  abbrev pub clear : Cache K V → Cache K V
  clear c = new c.max_entries c.max_bytes

  abbrev pub len : Cache K V → ℕ
  len c = length c.entries

  -- The condition of the eviction loop, for a value of `size` bytes.
  abbrev pub is_full : ℕ → Cache K V → Bool
  is_full size c = leb c.max_entries (length c.entries) || ltb (c.max_bytes - c.bytes) size

  abbrev pub store : K → V → ℕ → Cache K V → Cache K V
  store key value size c = record c {
    bytes = c.bytes + size;
    order = c.order ++ key ∷ [];
    entries = c.entries ++ (record { key = key; size = size; value = value }) ∷ [];
  }

-- `same` is the key type's `==`.
module _ {K V : Type 0} (same : K → K → Bool) where
  -- `HashMap::get`
  unfoldable pub find : K → List (Entry K V) → Option (Entry K V)
  find k [] = none
  find k (e ∷ es) = if same k e.key then some e else find k es

  -- `HashMap::remove`
  unfoldable pub remove : K → List (Entry K V) → List (Entry K V)
  remove k [] = []
  remove k (e ∷ es) = if same k e.key then es else e ∷ remove k es

  -- `HashMap::contains_key`
  unfoldable pub contains_key : K → List (Entry K V) → Bool
  contains_key k [] = false
  contains_key k (e ∷ es) = same k e.key || contains_key k es

  unfoldable pub get : K → Cache K V → Option V
  unfolding find
  get k c = and_then (find k c.entries) (λ e. some e.value)

  -- The body of the loop: the oldest key `k` is taken out, and `rest` stays in the order.
  evict_one : K → List K → Cache K V → Option (Cache K V)
  evict_one k rest c = and_then (find k c.entries) (λ e.
      some (record c { entries = remove k c.entries; order = rest; bytes = c.bytes - e.size }))

  -- The loop, by recursion on the order.
  evict : ℕ → List K → Cache K V → Option (Cache K V)
  evict size [] c = if is_full size c then none else some c
  evict size (k ∷ rest) c =
      let more = and_then (evict_one k rest c) (evict size rest) in
      if is_full size c then more else some c

  -- The guard: a cache without room, a value too large, or a key that is there already.
  abbrev pub is_refused : K → ℕ → Cache K V → Bool
  is_refused key size c =
      c.max_entries == 0
      || (c.max_bytes == 0 || (ltb c.max_bytes size || contains_key key c.entries))

  unfoldable pub insert : K → V → ℕ → Cache K V → Option (Cache K V)
  unfolding evict evict_one
  insert key value size c =
      if is_refused key size c
      then some c
      else and_then (evict size c.order c) (λ c'. some (store key value size c'))
