-- ===== src/Tests/Block.antt =====
-- A waveform block of vtr-rs/src/block.rs whose index has the groups 3 and 7.
use vtr.Prelude.{ℕ, zero, suc, ◌<◌, ◌≡◌, refl, some, List, ◌∷◌, ◌++◌, replicate, arith}
use vtr.Prelude.Bytes.{from_le}
use vtr.Error.{ok}
use vtr.Block.{BlockHeader, entry_at, index_entry, parse_block, find_group}
use vtr.Block.Search.{Ascends, find_group_finds, find_group_sound}

abbrev two_groups : BlockHeader
two_groups = record {
  start_time = 0;
  end_time = 50;
  n_times = 0;
  n_signals = 10;
  group_size = 4;
  n_dirty = 2;
  n_groups = 0;
  tt_len = 0;
}

abbrev block_bytes : List ℕ
block_bytes =
    replicate 8 0
    ++ (50 ∷ replicate 11 0
        ++ (10 ∷ 0 ∷ 0 ∷ 0 ∷ 4 ∷ 0 ∷ 0 ∷ 0 ∷ 2 ∷ 0 ∷ 0 ∷ 0 ∷ replicate 8 0
            ++ (3 ∷ 0 ∷ 0 ∷ 0 ∷ 5 ∷ replicate 11 0
                ++ (7 ∷ 0 ∷ 0 ∷ 0 ∷ 6 ∷ 0 ∷ 0 ∷ 0 ∷ 5 ∷ replicate 7 0))))

parse_block_run : parse_block block_bytes ≡ ok two_groups
unfolding parse_block from_le
parse_block_run = refl

two_groups_ascend : Ascends (entry_at block_bytes two_groups) 2
unfolding from_le
two_groups_ascend zero zero p q = absurd (omega arith)
two_groups_ascend zero (suc zero) p q = omega arith
two_groups_ascend zero (suc (suc j)) p q = absurd (omega arith)
two_groups_ascend (suc i) j p q = absurd (omega arith)

find_group_run : find_group block_bytes two_groups 7 ≡ some (some (6, 5))
unfolding find_group from_le
find_group_run = refl

find_group_finds_example : find_group block_bytes two_groups 7 ≡ some (some (6, 5))
unfolding from_le
find_group_finds_example =
    find_group_finds block_bytes two_groups 7 1 (omega arith) two_groups_ascend (omega arith) refl

find_group_sound_example :
    (i : ℕ) × ((i < 2) × (index_entry block_bytes two_groups i ≡ some (7, (6, 5))))
find_group_sound_example = find_group_sound block_bytes two_groups 7 (6, 5) find_group_run
