-- ===== src/Block.antt =====
-- vtr-rs/src/block.rs: the header of a waveform block and its index of groups. A slice that `parse` has
-- bounded is read as it stands; where a later slice is out of the block, the source panics, and the result is none.
pub mod Search
use vtr.Prelude.{
  ℕ, zero, suc, ◌+◌, ◌-◌, ◌*◌, ◌/◌, ◌%◌, ◌^◌, Bool, Option, none, some, List, [], ◌∷◌, length, take,
  drop, ltb, leb, ◌==◌, if◌then◌else◌,
}
use vtr.Prelude.Bytes.{from_le}
use vtr.Error.{Result, ok, err, corrupt, ◌>>=◌}
use vtr.Wire.Varint
use vtr.Wire.Varint.{Reader, reader}
use vtr.Codec
use vtr.Codec.{Backend}

abbrev header_len : ℕ
header_len = 40

abbrev index_entry_len : ℕ
index_entry_len = 16

-- `NO_BLOCK`
abbrev no_block : ℕ
no_block = 2 ^ 32 - 1

pub record BlockHeader : Type 0 where
  pub start_time : ℕ
  pub end_time : ℕ
  pub n_times : ℕ
  pub n_signals : ℕ
  pub group_size : ℕ
  pub n_dirty : ℕ
  pub n_groups : ℕ
  pub tt_len : ℕ

abbrev pub index_off : BlockHeader → ℕ
index_off h = header_len + h.tt_len

abbrev pub prev_off : BlockHeader → ℕ
prev_off h = index_off h + h.n_dirty * index_entry_len

abbrev pub data_off : BlockHeader → ℕ
data_off h = prev_off h + h.n_groups * 4

abbrev u32_at : List ℕ → ℕ → ℕ
u32_at p o = from_le (take 4 (drop o p))

abbrev u64_at : List ℕ → ℕ → ℕ
u64_at p o = from_le (take 8 (drop o p))

abbrev header_of : List ℕ → BlockHeader
header_of p = record {
  start_time = u64_at p 0;
  end_time = u64_at p 8;
  n_times = u32_at p 16;
  n_signals = u32_at p 20;
  group_size = u32_at p 24;
  n_dirty = u32_at p 28;
  n_groups = u32_at p 32;
  tt_len = u32_at p 36;
}

unfoldable pub parse_block : List ℕ → Result BlockHeader
parse_block p =
    if ltb (length p) header_len
    then err (corrupt "signal block header truncated")
    else if ltb (length p) (data_off (header_of p))
    then err (corrupt "signal block index truncated")
    else ok (header_of p)

-- The loop of `decode_time_table`: times are written as differences.
read_times : ℕ → ℕ → Reader → Result (List ℕ)
read_times zero t r = ok []
read_times (suc n) t r = do
  (delta, r') ← Varint.u64 r
  times ← read_times n ((t + delta) % 2 ^ 64) r'
  ok ((t + delta) % 2 ^ 64 ∷ times)

-- `&p[HEADER_LEN..h.index_off()]` panics beyond the end, which is none.
pub decode_time_table : Backend → List ℕ → BlockHeader → Option (Result (List ℕ))
decode_time_table backend p h =
    if leb (index_off h) (length p)
    then some (do
      raw ← Codec.decompress backend (take (index_off h - header_len) (drop header_len p))
      read_times h.n_times 0 (reader raw))
    else none

-- The bytes of an entry of the index: the group, the container's length and its offset.
abbrev pub entry_at : List ℕ → BlockHeader → ℕ → ℕ × (ℕ × ℕ)
entry_at p h i =
    let at = index_off h + i * index_entry_len in
    (u32_at p at, (u32_at p (at + 4), u64_at p (at + 8)))

-- The closure `entry`: its slice panics beyond the end, which is none.
unfoldable pub index_entry : List ℕ → BlockHeader → ℕ → Option (ℕ × (ℕ × ℕ))
index_entry p h i =
    if leb (index_off h + (i + 1) * index_entry_len) (length p) then some (entry_at p h i) else none

-- `while lo < hi`; each round takes one off `hi - lo` at least. The outer none is a panic.
unfoldable pub find_loop :
    (ℕ → Option (ℕ × (ℕ × ℕ))) → ℕ → (rounds lo hi : ℕ) → Option (Option (ℕ × ℕ))
find_loop entry group zero lo hi = some none
find_loop entry group (suc rounds) lo hi =
    let mid = (lo + hi) / 2 in
    if ltb lo hi
    then (elim (entry mid) [
      | none ↦ none
      | some e ↦
          if e.0 == group
          then some (some e.1)
          else find_loop entry group rounds (if ltb e.0 group then mid + 1 else lo)
              (if ltb e.0 group then hi else mid)
    ])
    else some none

unfoldable pub find_group : List ℕ → BlockHeader → ℕ → Option (Option (ℕ × ℕ))
unfolding find_loop index_entry
find_group p h group = find_loop (index_entry p h) group h.n_dirty 0 h.n_dirty

-- `dirty_groups`, from entry `i` on, all of them read.
entries_from : List ℕ → BlockHeader → (count i : ℕ) → Option (List (ℕ × (ℕ × ℕ)))
unfolding index_entry
entries_from p h zero i = some []
entries_from p h (suc count) i =
    let rest = entries_from p h count (i + 1) in
    elim (index_entry p h i) [
      | none ↦ none
      | some e ↦ elim rest [ none ↦ none | some es ↦ some (e ∷ es) ]
    ]

pub dirty_groups : List ℕ → BlockHeader → Option (List (ℕ × (ℕ × ℕ)))
dirty_groups p h = entries_from p h h.n_dirty 0

pub prev_dirty : List ℕ → BlockHeader → ℕ → Option ℕ
prev_dirty p h group =
    if leb h.n_groups group
    then some no_block
    else if leb (prev_off h + group * 4 + 4) (length p)
    then some (u32_at p (prev_off h + group * 4))
    else none

-- None where a sum leaves `usize`, a panic of the checked arithmetic.
pub group_container : List ℕ → BlockHeader → ℕ → ℕ → Option (Result (List ℕ))
group_container p h size off =
    if ltb (data_off h + off + size) (2 ^ 64)
    then some (
        if ltb (length p) (data_off h + off + size)
        then err (corrupt "group container out of range")
        else ok (take size (drop (data_off h + off) p)))
    else none
