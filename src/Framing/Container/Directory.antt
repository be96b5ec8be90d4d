-- ===== src/Framing/Container/Directory.antt =====
-- Reading the directory of an image: its entries, checked against the sections that they name, and the
-- container that they make.
use vtr.Prelude.{
  ℕ, suc, ◌+◌, ◌-◌, ◌≤◌, ◌≡◌, refl, ap, ◌∙◌, false, not, ◌&&◌, List, [], ◌∷◌, ◌++◌, append_assoc,
  length, length-append, elem, ◌==◌, eq→==, lt→leb, le→ltb, arith,
}
use vtr.Prelude.Bytes.{IsU32, IsU64, to_le}
use vtr.Error.{ok}
use vtr.Wire.Cursor
use vtr.Wire.Cursor.Laws.{u32-to_le, u64-to_le}
use vtr.Framing.{Section, invalid_kind}
use vtr.Framing.Writer.{directory_entry, directory_entries}
use vtr.Framing.Container.{section_at, read_entry, invalid_entry, insert_block, read_entries}
use vtr.Framing.Container.Read.{section_at-here}
use vtr.Framing.Image.{
  Frame, IsFrame, AllFrames, HasFreshBlocks, section_of, sections_at, frame_header, frames_bytes,
}
use vtr.Framing.Image.Sizes.{length-section_header, length-frames_bytes}

-- An entry whose fields have the widths of their types.
record IsStored (s : Section) : Type 0 where
  pub kind : IsU32 s.kind
  pub flags : IsU32 s.flags
  pub offset : IsU64 s.offset
  pub length : IsU64 s.length
  pub aux0 : IsU64 s.aux0
  pub aux1 : IsU64 s.aux1
  pub block_number : IsU64 s.block_number

entry-regroup :
    (s : Section) (rest : List ℕ)
    → directory_entry s ++ rest
      ≡ to_le 4 s.kind
        ++ (to_le 4 s.flags
            ++ (to_le 8 s.offset
                ++ (to_le 8 s.length
                    ++ (to_le 8 s.aux0 ++ (to_le 8 s.aux1 ++ (to_le 8 s.block_number ++ rest))))))
unfolding directory_entry
entry-regroup s rest = simp append_assoc

read_entry-directory_entry :
    (s : Section) (rest : List ℕ)
    → IsStored s
    → read_entry (directory_entry s ++ rest) ≡ ok (s, rest)
unfolding read_entry
read_entry-directory_entry s rest h = rw (
  entry-regroup s rest,
  u32-to_le s.kind _ h.kind,
  u32-to_le s.flags _ h.flags,
  u64-to_le s.offset _ h.offset,
  u64-to_le s.length _ h.length,
  u64-to_le s.aux0 _ h.aux0,
  u64-to_le s.aux1 _ h.aux1,
  u64-to_le s.block_number _ h.block_number,
)

-- One step of the loop, once its entry is read and its section is found.
read_entries_step :
    (bytes : List ℕ) (limit count previous : ℕ) (blocks : List ℕ) (d d' : Cursor.Cursor)
    (s actual : Section)
    → read_entry d ≡ ok (s, d')
    → invalid_entry s previous limit blocks ≡ false
    → section_at bytes s.offset ≡ ok actual
    → actual.kind ≡ s.kind
    → actual.flags ≡ s.flags
    → actual.length ≡ s.length
    → {ss : List Section} {last : ℕ} {d'' : Cursor.Cursor}
    → read_entries bytes limit count
        (s.offset + 24 + s.length)
        (insert_block s.block_number blocks)
        d'
      ≡ ok (ss, last, d'')
    → read_entries bytes limit (suc count) previous blocks d ≡ ok (s ∷ ss, last, d'')
unfolding read_entries
read_entries_step bytes limit count previous blocks d d' s actual read valid found hk hf hl more =
    rw (read, valid, found) (ground (arith, more))

module _ (crc : List ℕ → ℕ) (width : (bytes : List ℕ) → IsU32 (crc bytes)) where
  entry_valid :
      (f : Frame) (offset limit : ℕ) (blocks : List ℕ)
      → offset + 24 + length f.payload ≤ limit
      → invalid_kind f.kind f.block_number ≡ false
      → (not (f.block_number == 0) && elem f.block_number blocks) ≡ false
      → invalid_entry (section_of f offset) offset limit blocks ≡ false
  unfolding invalid_entry
  entry_valid f offset limit blocks room valid fresh = rw (
    eq→== offset offset refl,
    lt→leb offset limit (omega arith),
    le→ltb (limit - offset) 24 (omega arith),
    le→ltb (limit - offset - 24) (length f.payload) (omega arith),
    valid,
    fresh,
  )

  regroup :
      (f : Frame) (fs : List Frame) (back : List ℕ)
      → frames_bytes crc (f ∷ fs) ++ back
        ≡ frame_header crc f ++ (f.payload ++ (frames_bytes crc fs ++ back))
  regroup f fs back = simp append_assoc

  regroup_front :
      (front : List ℕ) (f : Frame) (fs : List Frame) (back : List ℕ)
      → front ++ (frames_bytes crc (f ∷ fs) ++ back)
        ≡ (front ++ (frame_header crc f ++ f.payload)) ++ (frames_bytes crc fs ++ back)
  regroup_front front f fs back = simp append_assoc

  length-front :
      (front : List ℕ) (f : Frame)
      → length (front ++ (frame_header crc f ++ f.payload)) ≡ length front + 24 + length f.payload
  length-front front f = omega (
    arith,
    length-append front (frame_header crc f ++ f.payload),
    length-append (frame_header crc f) f.payload,
    length-section_header f.kind f.flags (length f.payload) (crc f.payload),
  )

  stored :
      (f : Frame) (offset : ℕ)
      → IsFrame f
      → IsU64 offset
      → IsU64 (length f.payload)
      → IsStored (section_of f offset)
  stored f offset h ho hl = record {
    kind = h.kind;
    flags = h.flags;
    offset = ho;
    length = hl;
    aux0 = h.aux0;
    aux1 = h.aux1;
    block_number = h.block_number;
  }

  -- The entries of the directory are read back as the sections of the frames.
  pub read_entries-frames :
      (fs : List Frame) (bytes front back rest : List ℕ) (offset limit : ℕ) (blocks : List ℕ)
      → bytes ≡ front ++ (frames_bytes crc fs ++ back)
      → offset ≡ length front
      → limit ≡ offset + length (frames_bytes crc fs)
      → IsU64 limit
      → AllFrames fs
      → HasFreshBlocks blocks fs
      → read_entries bytes limit
          (length fs)
          offset
          blocks
          (directory_entries (sections_at offset fs) ++ rest)
        ≡ ok (sections_at offset fs, limit, rest)
  unfolding directory_entries
  read_entries-frames [] bytes front back rest offset limit blocks here ho hl hu all fresh =
      unfold read_entries in (ap (λ (t : ℕ). ok ([], t, rest)) (omega arith))
  read_entries-frames (f ∷ fs) bytes front back rest offset limit blocks here ho hl hu (hf, all)
        (new, fresh) =
      let size = length-frames_bytes crc f fs in
      let found =
        section_at-here bytes front f.payload (frames_bytes crc fs ++ back) f.kind f.flags
          (crc f.payload) (here ∙ ap (λ t. front ++ t) (regroup f fs back)) hf.kind hf.flags
          (omega arith) (width f.payload) in
      read_entries_step bytes limit (length fs) offset blocks
        (directory_entries (section_of f offset ∷ sections_at (offset + 24 + length f.payload) fs)
          ++ rest)
        (directory_entries (sections_at (offset + 24 + length f.payload) fs) ++ rest)
        (section_of f offset) _
        (ap read_entry (append_assoc (directory_entry (section_of f offset)) _ rest)
          ∙ read_entry-directory_entry (section_of f offset) _
              (stored f offset hf (omega arith) (omega arith)))
        (entry_valid f offset limit blocks (omega arith) hf.valid new)
        (ap (section_at bytes) ho ∙ found) refl refl refl
        (read_entries-frames fs bytes (front ++ (frame_header crc f ++ f.payload)) back rest
          (offset + 24 + length f.payload) limit (insert_block f.block_number blocks)
          (here ∙ regroup_front front f fs back) (omega (arith, ho, length-front front f))
          (omega arith) hu all fresh)
