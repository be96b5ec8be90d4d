-- ===== src/Activity/Index/Decode.antt =====
-- vtr-rs/src/activity/index.rs: `decode_with`, the sections of a sidecar one after the other. The libraries behind
-- the codecs are `backend`, and `crc32fast::hash` is `crc`.
use vtr.Prelude.{
  ℕ, zero, suc, ◌+◌, ◌-◌, ◌^◌, min, Bool, true, false, not, ◌&&◌, ◌||◌, Option, none, some, List,
  [], ◌∷◌, ◌++◌, length, drop, map, replicate, get_elem?, ltb, leb, ◌==◌, bytes_eq, if◌then◌else◌,
}
use vtr.Prelude.Bytes.{checked_add}
use vtr.Error.{Result, ok, err, corrupt, invalid, ◌>>=◌, ◌>>◌}
use vtr.Codec
use vtr.Codec.{Backend}
use vtr.Wire.Columns.{max_block_bytes}
use vtr.Wire.Cursor
use vtr.Wire.Cursor.{Cursor}
use vtr.Activity.{Identity, code}
use vtr.Activity.Container.{Entry, parse, payload}
use vtr.Activity.Format.{Header, BlockHead, decode_header, decode_block_head, tail_rows, unpack}
use vtr.Activity.Format.Columns.{column_at}
use vtr.Activity.Scan.{last}
use vtr.Activity.Index.{
  IndexBlock, Index, Stretch, Slot, Columns, block_part, tail_part, ok_or, section_rows,
}

-- The fields are compared in order; the formats have one value.
abbrev same_identity : Identity → Identity → Bool
same_identity a b =
    code a.format == code b.format
    && (a.length == b.length && (a.toc_crc == b.toc_crc && bytes_eq a.recording b.recording))

-- Before the first entry of kind 4, and from it on.
pub split_generators : List Entry → List Entry × List Entry
split_generators [] = ([], [])
split_generators (e ∷ es) =
    let rest = split_generators es in if e.kind == 4 then ([], e ∷ es) else (e ∷ rest.0, rest.1)

-- `let [first, rest @ .., tail] = wave_entries`
split_last : Entry → List Entry → List Entry × Entry
split_last e [] = ([], e)
split_last e (x ∷ xs) = let rest = split_last x xs in (e ∷ rest.0, rest.1)

pub wave_sections : List Entry → Result (Entry × (List Entry × Entry))
unfolding split_last
wave_sections [] = err (corrupt "activity sections missing")
wave_sections (e ∷ []) = err (corrupt "activity sections missing")
wave_sections (e ∷ (x ∷ xs)) = ok (e, split_last x xs)

abbrev nonzero : ℕ → Bool
nonzero n = not (n == 0)

any_other_kind : List Entry → Bool
any_other_kind [] = false
any_other_kind (e ∷ es) = not (e.kind == 2) || any_other_kind es

out_of_order : Entry → List Entry → Entry → Bool
unfolding any_other_kind
out_of_order first rest tail =
    not (first.kind == 1)
    || (nonzero first.aux0
        || (nonzero first.aux1
            || (not (tail.kind == 3)
                || (nonzero tail.aux0 || (nonzero tail.aux1 || any_other_kind rest)))))

-- `last().is_some_and(|last| head.start < last.end)`
starts_early : ℕ → Option IndexBlock → Bool
starts_early start none = false
starts_early start (some b) = ltb start b.end

abbrev is_empty {ℓ} : {A : Type ℓ} → List A → Bool
is_empty [] = true
is_empty (x ∷ xs) = false

-- `columns[i]` as a cursor, which is there.
abbrev nth : List Cursor → ℕ → Cursor
nth columns i = elim (get_elem? columns i) [ none ↦ [] | some c ↦ c ]

abbrev pub columns_of : List Cursor → Columns
columns_of cs = record {
  c0 = nth cs 0;
  c1 = nth cs 1;
  c2 = nth cs 2;
  c3 = nth cs 3;
  c4 = nth cs 4;
  c5 = nth cs 5;
}

-- The blocks and the slots so far.
pub record Tables : Type 0 where
  pub blocks : List IndexBlock
  pub slots : List Slot

abbrev pub block_of : BlockHead → IndexBlock
block_of head = record { start = head.start; end = head.end; bytes = head.bytes; delta = 1 }

abbrev pub lists_of : List Slot → List (List Stretch)
lists_of slots = map (λ (s : Slot). s.list) slots

module _ (backend : Backend) (crc : List ℕ → ℕ) where
  -- `admit_blob` less the admission.
  admit_blob : List ℕ → Result (Unit {0})
  admit_blob blob = do
    length ← Codec.raw_len backend blob
    if leb max_block_bytes length then err (corrupt "activity page exceeds format limit") else ok tt

  unfoldable pub section_columns : ℕ → List ℕ → Result (List Cursor)
  unfolding admit_blob
  section_columns n blob = do
    _ ← admit_blob blob
    (raw, ranges) ← unpack n backend blob
    ok (map (column_at raw) ranges)

  rows_fit : ℕ → Header → List IndexBlock → Bool
  rows_fit rows header blocks =
      leb rows header.signals && not (is_empty blocks && not (header.t_min == 0))

  unfoldable pub block_section : Header → Entry → List ℕ → Tables → Result Tables
  unfolding section_columns starts_early rows_fit
  block_section header entry body t = do
    head ← decode_block_head body
    if ltb head.bytes 24
          || (not (head.start == entry.aux0 && head.end == entry.aux1)
              || (starts_early head.start (last t.blocks)
                  || is_empty t.blocks && not (head.start == header.t_min)))
        then err (corrupt "invalid activity block bounds")
        else do
          let blocks = t.blocks ++ block_of head ∷ []
          columns ← section_columns 6 (drop 40 body)
          if not (rows_fit head.rows header blocks)
              then err (corrupt "invalid activity row count")
              else do
                slots ←
                    section_rows head.rows header.t_min head.closed (block_part (block_of head))
                      t.slots (columns_of columns)
                ok (record { blocks = blocks; slots = slots })

  unfoldable pub tail_section : Header → List ℕ → Tables → Result Tables
  unfolding section_columns rows_fit
  tail_section header body t = do
    rows ← tail_rows body
    columns ← section_columns 3 (drop 8 body)
    if not (rows_fit rows header t.blocks) then err (corrupt "invalid activity row count") else do
      slots ←
          section_rows rows header.t_min 0 (tail_part (last t.blocks)) t.slots (columns_of columns)
      ok (record t { slots = slots })

  unfoldable pub block_sections : List ℕ → Header → List Entry → Tables → Result Tables
  unfolding block_section
  block_sections bytes header [] t = ok t
  block_sections bytes header (entry ∷ entries) t = do
    body ← payload crc bytes entry
    t' ← block_section header entry body t
    block_sections bytes header entries t'

  -- `starts.iter().any(Option::is_some)`
  any_open : List Slot → Bool
  any_open [] = false
  any_open (s ∷ slots) = elim s.start [ none ↦ any_open slots | some t ↦ true ]

  -- The intervals of one section: `begin <= last.saturating_add(1)` is refused.
  interval_after : ℕ → List (ℕ × ℕ) → Bool
  interval_after begin list = elim (last list) [
    | none ↦ true
    | some i ↦ ltb (min (i.1 + 1) (2 ^ 64 - 1)) begin
  ]

  read_intervals :
      ℕ → ℕ → List (ℕ × ℕ) → Cursor → Cursor → Result (List (ℕ × ℕ) × (Cursor × Cursor))
  unfolding interval_after
  read_intervals zero previous list c0 c1 = ok (list, (c0, c1))
  read_intervals (suc n) previous list c0 c1 = do
    (delta, c0') ← Cursor.var c0
    begin ← ok_or "activity time overflow" (checked_add previous delta)
    (length, c1') ← Cursor.var c1
    end ← ok_or "activity time overflow" (checked_add begin length)
    if not (interval_after begin list)
        then err (corrupt "unmerged generator activity")
        else read_intervals n end (list ++ (begin, end) ∷ []) c0' c1'

  -- The list that the section goes on with: the last generator's, or a new one.
  open_generator : ℕ → List (ℕ × List (ℕ × ℕ)) → List (ℕ × List (ℕ × ℕ)) × List (ℕ × ℕ)
  open_generator generator [] = ([], [])
  open_generator generator ((id, list) ∷ []) =
      if id == generator then ([], list) else ((id, list) ∷ [], [])
  open_generator generator (g ∷ (h ∷ rest)) =
      let more = open_generator generator (h ∷ rest) in (g ∷ more.0, more.1)

  -- `last().is_some_and(|(id, _)| *id > generator)`
  descends : ℕ → List (ℕ × List (ℕ × ℕ)) → Bool
  descends generator generators = elim (last generators) [
    | none ↦ false
    | some g ↦ ltb generator g.0
  ]

  generator_section : Entry → List ℕ → List (ℕ × List (ℕ × ℕ)) → Result (List (ℕ × List (ℕ × ℕ)))
  unfolding section_columns read_intervals open_generator descends
  generator_section entry body generators = do
    (generator, d) ← Cursor.u32 body
    (count, blob) ← Cursor.u32 d
    if count == 0 || (ltb 4096 count || descends generator generators)
        then err (corrupt "invalid generator activity rows")
        else do
          columns ← section_columns 2 blob
          let before = open_generator generator generators
          (list, (c0, c1)) ← read_intervals count 0 before.1 (nth columns 0) (nth columns 1)
          Cursor.done c0
          Cursor.done c1
          ok (before.0 ++ (generator, list) ∷ [])

  unfoldable pub generator_sections :
      List ℕ → List Entry → List (ℕ × List (ℕ × ℕ)) → Result (List (ℕ × List (ℕ × ℕ)))
  unfolding generator_section
  generator_sections bytes [] generators = ok generators
  generator_sections bytes (entry ∷ entries) generators =
      if not (entry.kind == 4) || (nonzero entry.aux0 || nonzero entry.aux1)
      then err (corrupt "invalid generator activity section")
      else do
        body ← payload crc bytes entry
        generators' ← generator_section entry body generators
        generator_sections bytes entries generators'

  -- The waveform's sections, behind the header: the tables that they leave.
  unfoldable pub wave_tables : List ℕ → Header → List Entry → Entry → Result Tables
  unfolding block_sections tail_section any_open
  wave_tables bytes header rest tail = do
    t ← block_sections bytes header rest (record {
      blocks = [];
      slots = replicate header.signals (record { list = []; start = none });
    })
    body ← payload crc bytes tail
    t' ← tail_section header body t
    if any_open t'.slots then err (corrupt "activity tail leaves stretches open") else ok t'

  unfoldable pub decode : List ℕ → Identity → Result Index
  unfolding split_generators wave_sections out_of_order wave_tables generator_sections
  decode bytes identity = do
    entries ← parse crc bytes
    let parts = split_generators entries
    (first, (rest, tail)) ← wave_sections parts.0
    if out_of_order first rest tail then err (corrupt "activity sections out of order") else do
      head ← payload crc bytes first
      header ← decode_header head
      if not (same_identity header.identity identity)
          then err (invalid "activity index belongs to another recording")
          else do
            t ← wave_tables bytes header rest tail
            generators ← generator_sections bytes parts.1 []
            ok (record {
              header = header;
              blocks = t.blocks;
              signals = lists_of t.slots;
              generators = generators;
            })
