-- ===== src/Framing/Container.antt =====
-- vtr-rs/src/framing.rs: `Container`. The file is its list of bytes; `crc` is `crc32fast::hash`, and
-- `backend` the compression libraries that a recovered declaration section needs.
pub mod Read
pub mod Directory
pub mod Reopen
use vtr.Prelude.{
  ℕ, zero, suc, ◌+◌, ◌-◌, ◌*◌, ◌/◌, ◌^◌, ◌≤◌, ◌<◌, bit_and, Bool, true, false, not, ◌&&◌, ◌||◌,
  Option, none, some, List, [], ◌∷◌, ◌++◌, length, take, drop, bytes_eq, elem, ltb, leb, ◌==◌,
  if◌then◌else◌, arith,
}
use vtr.Prelude.Bytes.{from_le}
use vtr.Error.{Result, ok, err, corrupt, unsupported_version, checksum, ◌>>=◌, ◌>>◌}
use vtr.Wire.Cursor
use vtr.Wire.Cursor.{Cursor}
use vtr.Codec.{Backend}
use vtr.Codec.Blob
use vtr.Framing.{
  RecordingId, zero_identity, Completion, complete, incomplete, unfinished, Fingerprint, Section,
  payload_offset, is_block, invalid_kind, magic, trailer_magic, version_major, version_minor,
  header_bytes, section_bytes,
}
use mathlib.Core.Logic.{dite}
use mathlib.Core.WellFounded.{Acc, WellFounded}
use native.Mathlib.Decide.{dec_le}

pub record Container : Type 0 where
  pub bytes : List ℕ
  pub identity : RecordingId
  pub completion : Completion
  pub dropped : ℕ
  pub fingerprint : Option Fingerprint
  pub sections : List Section
  pub verify_crc : Bool

pub slice : List ℕ → ℕ → ℕ → Result (List ℕ)
slice bytes offset size =
    if ltb (length bytes) offset || ltb (length bytes - offset) size
    then err (corrupt "section exceeds file")
    else ok (take size (drop offset bytes))

-- `section_at` once its header is cut out.
section_of : List ℕ → ℕ → Cursor → Result Section
section_of bytes offset d = do
  (kind, d1) ← Cursor.u32 d
  (flags, d2) ← Cursor.u32 d1
  (size, d3) ← Cursor.u64 d2
  (sum, d4) ← Cursor.u32 d3
  (reserved, d5) ← Cursor.u32 d4
  if not (reserved == 0) then err (corrupt "nonzero section reserved field") else do
    slice bytes (offset + section_bytes) size
    ok (record {
      kind = kind;
      flags = flags;
      offset = offset;
      length = size;
      aux0 = 0;
      aux1 = 0;
      block_number = 0;
    })

pub section_at : List ℕ → ℕ → Result Section
section_at bytes offset = do d ← slice bytes offset section_bytes; section_of bytes offset d

-- `bytes.ends_with(..)`
unfoldable pub ends_with : List ℕ → List ℕ → Bool
ends_with bytes suffix =
    leb (length suffix) (length bytes)
    && bytes_eq (drop (length bytes - length suffix) bytes) suffix

-- A `Section` of the directory, field by field.
read_entry : Cursor → Result (Section × Cursor)
read_entry d = do
  (kind, d1) ← Cursor.u32 d
  (flags, d2) ← Cursor.u32 d1
  (offset, d3) ← Cursor.u64 d2
  (size, d4) ← Cursor.u64 d3
  (aux0, d5) ← Cursor.u64 d4
  (aux1, d6) ← Cursor.u64 d5
  (block_number, d7) ← Cursor.u64 d6
  ok (
    record {
      kind = kind;
      flags = flags;
      offset = offset;
      length = size;
      aux0 = aux0;
      aux1 = aux1;
      block_number = block_number;
    },
    d7,
  )

-- The guard on an entry. `blocks` holds the block numbers before it, `limit` is the directory's offset.
invalid_entry : Section → ℕ → ℕ → List ℕ → Bool
invalid_entry s previous limit blocks =
    not (s.offset == previous)
    || (leb limit s.offset
        || (ltb (limit - s.offset) 24
            || (ltb (limit - s.offset - 24) s.length
                || (invalid_kind s.kind s.block_number
                    || (not (s.block_number == 0) && elem s.block_number blocks)))))

unfoldable pub insert_block : ℕ → List ℕ → List ℕ
insert_block n blocks = if n == 0 then blocks else n ∷ blocks

-- `for _ in 0..count`: the sections, the end of the last, and the cursor behind them.
pub read_entries : List ℕ → ℕ → ℕ → ℕ → List ℕ → Cursor → Result (List Section × ℕ × Cursor)
read_entries bytes limit zero previous blocks d = ok ([], previous, d)
read_entries bytes limit (suc count) previous blocks d = do
  (s, d') ← read_entry d
  if invalid_entry s previous limit blocks then err (corrupt "invalid directory entry") else do
    actual ← section_at bytes s.offset
    if not (actual.kind == s.kind)
          || (not (actual.flags == s.flags) || not (actual.length == s.length))
        then err (corrupt "directory/header mismatch")
        else do
          (ss, last, d'') ←
              read_entries bytes limit count (s.offset + 24 + s.length)
                (insert_block s.block_number blocks) d'
          ok (s ∷ ss, last, d'')

module _ (backend : Backend) (crc : List ℕ → ℕ) where
  -- The stored sum of a section, `self.slice(section.offset + 16, 4)`; a sum of 0 is not compared.
  check_sum : List ℕ → Section → List ℕ → Result (List ℕ)
  check_sum bytes s payload = do
    sum ← slice bytes (s.offset + 16) 4
    if not (from_le sum == 0) && not (from_le sum == crc payload)
        then err (checksum s.offset)
        else ok payload

  pub payload : List ℕ → Bool → Section → Bool → Result (List ℕ)
  payload bytes verify_crc s force_crc = do
    p ← slice bytes (payload_offset s) s.length
    if verify_crc || force_crc then check_sum bytes s p else ok p

  -- The directory at `offset`, in a file of `size` bytes. `flags & !2` keeps all bits but one.
  pub parse_directory : List ℕ → RecordingId → Bool → ℕ → ℕ → Result Container
  parse_directory bytes identity verify_crc offset size = do
    dir ← section_at bytes offset
    if not (dir.kind == 7)
          || (not (dir.length == size - offset - 48) || not (bit_and dir.flags 0xffff_fffd == 0))
        then err (corrupt "invalid directory bounds or flags")
        else do
          p ← payload bytes verify_crc dir true
          (count, d1) ← Cursor.u64 p
          (dropped, d2) ← Cursor.u64 d1
          if (dir.flags == 0 && not (dropped == 0)) || ltb (Cursor.remaining d2 / 48) count
              then err (corrupt "invalid directory recovery state or entry count")
              else do
                (sections, last, d3) ← read_entries bytes offset count header_bytes [] d2
                Cursor.done d3
                if not (last == offset)
                    then err (corrupt "directory omits sections")
                    else ok (record {
                      bytes = bytes;
                      identity = identity;
                      completion = if dir.flags == 0 then complete else incomplete;
                      dropped = dropped;
                      fingerprint =
                          some
                            (record { recording = identity; length = size; directory_crc = crc p });
                      sections = sections;
                      verify_crc = verify_crc;
                    })
