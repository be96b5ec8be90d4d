-- ===== src/Tests/Cache.antt =====
-- The page cache of vtr-rs/src/trace/cache.rs with room for two entries.
use vtr.Prelude.{ℕ, Bool, [], ◌∷◌, ◌==◌}
use vtr.Trace.Cache.{Cache}

abbrev same_key : ℕ → ℕ → Bool
same_key a b = a == b

-- Full, with 10 and then 20 stored.
abbrev full_cache : Cache ℕ ℕ
full_cache = record {
  entries =
      record { key = 1; size = 4; value = 10 } ∷ record { key = 2; size = 3; value = 20 } ∷ [];
  order = 1 ∷ 2 ∷ [];
  bytes = 7;
  max_entries = 2;
  max_bytes = 8;
}
