-- ===== src/Trace/Cache/Bounded.antt =====
-- The cache keeps its limits, and the loop of `insert` never runs out of keys or finds one unmapped.
use vtr.Prelude.{
  ℕ, ◌+◌, ◌-◌, ◌≤◌, ◌<◌, ◌≡◌, refl, Bool, true, false, some, List, [], ◌∷◌, ◌++◌, length, drop,
  arith,
}
use vtr.Trace.Cache.{Entry, Cache, new, contains_key, get, is_full}

module _ {K V : Type 0} (same : K → K → Bool) (reflexive : (k : K) → same k k ≡ true) where
  abbrev total : List (Entry K V) → ℕ
  total [] = 0
  total (e ∷ es) = e.size + total es

  abbrev keys : List (Entry K V) → List K
  keys [] = []
  keys (e ∷ es) = e.key ∷ keys es

  -- No key is mapped twice.
  abbrev IsUnique : List (Entry K V) → Type 0
  IsUnique [] = Unit
  IsUnique (e ∷ es) = (contains_key same e.key es ≡ false) × IsUnique es

  -- The bytes are the sum of the sizes, the order lists the keys, both limits are kept.
  pub record IsCache (c : Cache K V) : Type 0 where
    pub order : c.order ≡ keys c.entries
    pub bytes : c.bytes ≡ total c.entries
    pub bounded : c.bytes ≤ c.max_bytes
    pub few : length c.entries ≤ c.max_entries
    pub unique : IsUnique c.entries

  new-IsCache : (max_entries max_bytes : ℕ) → IsCache (new max_entries max_bytes)
  new-IsCache max_entries max_bytes = record {
    order = refl;
    bytes = refl;
    bounded = omega arith;
    few = omega arith;
    unique = tt;
  }

  -- The cache once its oldest entry is gone.
  abbrev without : Entry K V → List (Entry K V) → Cache K V → Cache K V
  without e es c = record c { entries = es; order = keys es; bytes = c.bytes - e.size }

  -- The cache without its `n` oldest entries.
  abbrev pub without_oldest : ℕ → Cache K V → Cache K V
  without_oldest n c = record c {
    entries = drop n c.entries;
    order = keys (drop n c.entries);
    bytes = total (drop n c.entries);
  }

  -- What the loop leaves: room for `size` bytes, and a rest of the entries.
  record IsEvicted (size : ℕ) (c c' : Cache K V) : Type 0 where
    inv : IsCache c'
    room : is_full size c' ≡ false
    limits : (c'.max_entries ≡ c.max_entries) × (c'.max_bytes ≡ c.max_bytes)
    gone : ℕ
    rest : c'.entries ≡ drop gone c.entries
    needed : (n : ℕ) → n < gone → is_full size (without_oldest n c) ≡ true

  module _ (symmetric : (a b : K) → same a b ≡ same b a) where
    -- What `insert` leaves where it stores: the limits kept, the value found, and the entries that were there
    -- but for `gone` of the oldest, where with fewer gone there is no room.
    pub record IsStored (key : K) (value : V) (size : ℕ) (c c' : Cache K V) : Type 0 where
      pub inv : IsCache c'
      pub found : get same key c' ≡ some value
      pub gone : ℕ
      pub entries :
          c'.entries
          ≡ drop gone c.entries ++ (record { key = key; size = size; value = value }) ∷ []
      pub needed : (n : ℕ) → n < gone → is_full size (without_oldest n c) ≡ true
