-- ===== src/Activity/Container/Payloads.antt =====
-- What stands at an entry's offset is read back, one section and then a row of them.
use vtr.Prelude.{
  ℕ, ◌+◌, ◌≤◌, ◌≡◌, refl, ap, ◌∙◌, List, [], ◌∷◌, ◌++◌, append_assoc, length, length-append, drop,
  drop-append, drop-add, length-drop, le→ltb, eq→==, arith,
}
use vtr.Prelude.Bytes.{IsU32, IsU64, to_le}
use vtr.Error.{ok}
use vtr.Wire.Cursor
use vtr.Wire.Cursor.{Cursor}
use vtr.Wire.Cursor.Laws.{take-front, u32-to_le, u64-to_le}
use vtr.Activity.Container.{
  header, checked_body, payload, read_entry, next_offset, read_entries, entry_bytes, directory_rows,
}
use vtr.Activity.Container.Image.{
  Frame, IsFrame, AllFrames, body_of, entry_of, entries_at, frames_bytes, length-header,
  length-frame,
}

module _ (crc : List ℕ → ℕ) (width : (bytes : List ℕ) → IsU32 (crc bytes)) where
  pub header-regroup :
      (kind : ℕ) (body rest : List ℕ)
      → header crc kind body ++ rest
        ≡ to_le 4 kind
          ++ (to_le 4 0 ++ (to_le 8 (length body) ++ (to_le 4 (crc body) ++ (to_le 4 0 ++ rest))))
  unfolding header
  header-regroup kind body rest = simp append_assoc

  pub zeros : (rest : List ℕ) → Cursor.u32 (to_le 4 0 ++ rest) ≡ ok (0, rest)
  zeros rest = u32-to_le 0 rest (omega arith)

  pub payload-here :
      (bytes : List ℕ) (offset : ℕ) (f : Frame) (rest : List ℕ)
      → offset ≤ length bytes
      → IsFrame f
      → IsU64 (length (body_of f))
      → drop offset bytes ≡ header crc f.kind (body_of f) ++ (body_of f ++ rest)
      → payload crc bytes (entry_of f offset) ≡ ok (body_of f)
  unfolding payload checked_body
  payload-here bytes offset f rest inside frame wide here = rw (
    le→ltb (length bytes) offset inside,
    here ∙ header-regroup f.kind (body_of f) (body_of f ++ rest),
    u32-to_le f.kind
        (to_le 4 0
          ++ (to_le 8 (length (body_of f))
              ++ (to_le 4 (crc (body_of f)) ++ (to_le 4 0 ++ (body_of f ++ rest)))))
        frame.kind,
    eq→== f.kind f.kind refl,
    zeros (
        to_le 8 (length (body_of f))
        ++ (to_le 4 (crc (body_of f)) ++ (to_le 4 0 ++ (body_of f ++ rest)))),
    u64-to_le (length (body_of f)) (to_le 4 (crc (body_of f)) ++ (to_le 4 0 ++ (body_of f ++ rest)))
        wide,
    eq→== (length (body_of f)) (length (body_of f)) refl,
    u32-to_le (crc (body_of f)) (to_le 4 0 ++ (body_of f ++ rest)) (width (body_of f)),
    zeros (body_of f ++ rest),
    take-front (length (body_of f)) (body_of f) rest refl,
    eq→== (crc (body_of f)) (crc (body_of f)) refl,
  )

  read_entry-entry_bytes :
      (f : Frame) (offset : ℕ) (rest : List ℕ)
      → IsFrame f
      → IsU64 offset
      → IsU64 (length (body_of f))
      → read_entry (entry_bytes (entry_of f offset) ++ rest) ≡ ok (entry_of f offset, rest)
  unfolding read_entry entry_bytes
  read_entry-entry_bytes f offset rest frame wide_offset wide = rw (
    append_assoc,
    u32-to_le f.kind _ frame.kind,
    append_assoc,
    zeros _,
    append_assoc,
    u64-to_le offset _ wide_offset,
    append_assoc,
    u64-to_le (length (body_of f)) _ wide,
    append_assoc,
    u64-to_le f.aux0 _ frame.aux0,
    u64-to_le f.aux1 rest frame.aux1,
  )

  next_offset_lem :
      (offset len limit : ℕ)
      → IsU64 limit
      → offset + 24 + len ≤ limit
      → next_offset offset len limit ≡ ok (offset + 24 + len)
  unfolding next_offset
  next_offset_lem offset len limit wide fits = ground arith

  pub next_here :
      (bytes : List ℕ) (offset : ℕ) (f : Frame) (fs : List Frame) (tail : List ℕ)
      → drop offset bytes ≡ frames_bytes crc (f ∷ fs) ++ tail
      → drop (offset + 24 + length (body_of f)) bytes ≡ frames_bytes crc fs ++ tail
  next_here bytes offset f fs tail here =
      let front = header crc f.kind (body_of f) ++ body_of f in
      let size : 24 + length (body_of f) ≡ length front = omega (
        arith,
        length-append (header crc f.kind (body_of f)) (body_of f),
        length-header crc f.kind (body_of f),
      ) in
      ap (λ n. drop n bytes) (omega arith)
      ∙ drop-add offset (24 + length (body_of f)) bytes
      ∙ ap (drop (24 + length (body_of f))) (here ∙ simp append_assoc)
      ∙ drop-append (24 + length (body_of f)) front (frames_bytes crc fs ++ tail) size

  pub next_inside :
      (bytes : List ℕ) (offset : ℕ) (f : Frame) (fs : List Frame) (tail : List ℕ)
      → offset ≤ length bytes
      → drop offset bytes ≡ frames_bytes crc (f ∷ fs) ++ tail
      → offset + 24 + length (body_of f) ≤ length bytes
  next_inside bytes offset f fs tail inside here = omega (
    arith,
    length-drop offset bytes,
    ap length here,
    length-append (frames_bytes crc (f ∷ fs)) tail,
    length-frame crc f (frames_bytes crc fs),
  )

  -- The rows of a directory, against sections that stand in a row up to `limit`.
  pub read_entries-frames :
      (fs : List Frame) (bytes tail : List ℕ) (offset limit : ℕ)
      → AllFrames fs
      → IsU64 limit
      → offset ≤ length bytes
      → offset + length (frames_bytes crc fs) ≡ limit
      → drop offset bytes ≡ frames_bytes crc fs ++ tail
      → read_entries crc (length fs) bytes limit offset (directory_rows (entries_at offset fs))
        ≡ ok (entries_at offset fs, limit)
  unfolding read_entries directory_rows
  read_entries-frames [] bytes tail offset limit all wide inside ends here =
      ap (λ (t : ℕ). ok ([], t)) (omega arith)
  read_entries-frames (f ∷ fs) bytes tail offset limit all wide inside ends here =
      let size = length-frame crc f (frames_bytes crc fs) in
      let next = offset + 24 + length (body_of f) in
      rw (
        read_entry-entry_bytes f offset (directory_rows (entries_at next fs)) all.0 (omega arith)
            (omega arith),
        eq→== offset offset refl,
        next_offset_lem offset (length (body_of f)) limit wide (omega arith),
        payload-here bytes offset f (frames_bytes crc fs ++ tail) inside all.0 (omega arith)
            (here ∙ simp append_assoc),
        read_entries-frames fs bytes tail next limit all.1 wide
            (next_inside bytes offset f fs tail inside here) (omega arith)
            (next_here bytes offset f fs tail here),
      )
