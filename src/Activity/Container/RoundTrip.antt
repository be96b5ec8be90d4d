-- ===== src/Activity/Container/RoundTrip.antt =====
-- A file that `FileWriter` has finished is parsed into the entries of its sections, and each entry's payload is the
-- section's body.
use vtr.Prelude.{
  ℕ, suc, ◌+◌, ◌-◌, ◌*◌, ◌/◌, ◌%◌, ◌≤◌, ◌≡◌, refl, sym, ap, ◌∙◌, List, [], ◌∷◌, ◌++◌, map,
  append_assoc, length, length-append, take, drop, drop-append, take-append, replicate, bytes_eq,
  bytes_eq_refl, eq→==, lt→leb, le→ltb, arith,
}
use vtr.Prelude.Bytes.{IsU32, IsU64, to_le}
use mathlib.Core.Path.{ap₂}
use vtr.Error.{ok}
use vtr.Wire.Cursor
use vtr.Wire.Cursor.Laws.{take-front, u32-to_le, u64-to_le}
use vtr.Activity.{magic, version}
use vtr.Activity.Format.{any_set}
use vtr.Activity.Container.{
  end_magic, header, payload, directory_rows, directory_bytes, directory_entries, directory_section,
  file_header, trailer_offset, parse, file_writer, finish,
}
use vtr.Activity.Container.Image.{
  Frame, AllFrames, body_of, entries_at, frames_bytes, write_all, write_all_lem, length-header,
  length-entries_at, length-directory_rows,
}
use vtr.Activity.Container.Payloads.{
  header-regroup, zeros, payload-here, next_here, next_inside, read_entries-frames,
}

abbrev file_head : List ℕ
file_head = magic ++ (to_le 2 version ++ replicate 22 0)

file_header-file_head : file_header (drop 8 file_head) ≡ ok tt
unfolding file_header to_le any_set Cursor.take Cursor.fixed_le vtr.Prelude.Bytes.from_le
file_header-file_head = refl

module _ (crc : List ℕ → ℕ) (width : (bytes : List ℕ) → IsU32 (crc bytes)) (fs : List Frame) where
  abbrev rows : List ℕ
  rows = directory_bytes (entries_at 32 fs)

  abbrev position : ℕ
  position = 32 + length (frames_bytes crc fs)

  abbrev trailer : List ℕ
  trailer = to_le 8 position ++ (to_le 8 (position + 24 + length rows + 24) ++ end_magic)

  -- The finished file.
  abbrev image : List ℕ
  image = (file_head ++ frames_bytes crc fs) ++ (header crc 7 rows ++ (rows ++ trailer))

  finish-write_all :
      finish crc (write_all crc fs file_writer) ≡ (image, position + 24 + length rows + 24)
  unfolding finish file_writer
  finish-write_all = rw (write_all_lem crc fs file_writer) refl

  length-rows : length rows ≡ 8 + 40 * length fs
  unfolding directory_bytes to_le
  length-rows = omega (arith, length-directory_rows (entries_at 32 fs), length-entries_at 32 fs)

  length-image : length image ≡ position + 24 + length rows + 24
  unfolding to_le
  length-image = omega (
    arith,
    length-append (frames_bytes crc fs) (header crc 7 rows ++ (rows ++ trailer)),
    length-append (header crc 7 rows) (rows ++ trailer),
    length-header crc 7 rows,
    length-append rows trailer,
  )

  module _ (bytes : List ℕ) (whole : bytes ≡ image) (all : AllFrames fs)
      (fits : IsU64 (length bytes)) where
    size : length bytes ≡ position + 24 + length rows + 24
    size = ap length whole ∙ length-image

    at_trailer : drop (length bytes - 24) bytes ≡ trailer
    unfolding to_le
    at_trailer =
        let before = (file_head ++ frames_bytes crc fs) ++ (header crc 7 rows ++ rows) in
        let front : length before ≡ position + 24 + length rows = omega (
          arith,
          length-append (frames_bytes crc fs) (header crc 7 rows ++ rows),
          length-append (header crc 7 rows) rows,
          length-header crc 7 rows,
        ) in
        ap (drop (length bytes - 24)) (whole ∙ simp append_assoc)
        ∙ drop-append (length bytes - 24) before trailer (omega (arith, size))

    trailer_offset-trailer : trailer_offset (length bytes) trailer ≡ ok position
    unfolding trailer_offset
    trailer_offset-trailer =
        let total : position + 24 + length rows + 24 ≡ length bytes = sym size in
        rw (
          u64-to_le position (to_le 8 (position + 24 + length rows + 24) ++ end_magic)
              (omega (arith, size)),
          u64-to_le (position + 24 + length rows + 24) end_magic (omega (arith, size)),
          eq→== (position + 24 + length rows + 24) (length bytes) total,
          take-front 8 end_magic [] refl,
          bytes_eq_refl end_magic,
          le→ltb position 32 (omega arith),
          lt→leb position (length bytes - 24) (omega (arith, size)),
        )

    directory_start : drop position bytes ≡ header crc 7 rows ++ (rows ++ trailer)
    unfolding to_le
    directory_start =
        ap (drop position) whole
        ∙ drop-append position (file_head ++ frames_bytes crc fs)
            (header crc 7 rows ++ (rows ++ trailer)) (omega arith)

    at_directory :
        take (length bytes - 24 - position) (drop position bytes) ≡ header crc 7 rows ++ rows
    at_directory =
        ap (take (length bytes - 24 - position)) (directory_start ∙ simp append_assoc)
        ∙ take-append (length bytes - 24 - position) (header crc 7 rows ++ rows) trailer
            (omega (arith, size, length-append (header crc 7 rows) rows, length-header crc 7 rows))

    frames_start : drop 32 bytes ≡ frames_bytes crc fs ++ (header crc 7 rows ++ (rows ++ trailer))
    unfolding to_le
    frames_start = ap (drop 32) whole

    directory_entries-rows : directory_entries crc bytes position rows ≡ ok (entries_at 32 fs)
    unfolding directory_entries directory_bytes Cursor.remaining
    directory_entries-rows =
        let count = length-entries_at 32 fs in
        let n = length-directory_rows (entries_at 32 fs) in
        rw (
          u64-to_le (length (entries_at 32 fs)) (directory_rows (entries_at 32 fs))
              (omega (arith, size, length-rows, count)),
          eq→== (length (entries_at 32 fs)) (length (directory_rows (entries_at 32 fs)) / 40)
              (omega (arith, n)),
          eq→== (length (directory_rows (entries_at 32 fs)) % 40) 0 (omega (arith, n)),
          count,
          read_entries-frames crc width fs bytes (header crc 7 rows ++ (rows ++ trailer)) 32
              position all (omega (arith, size)) (omega (arith, size)) refl frames_start,
          eq→== position position refl,
        )

    directory_section-rows :
        directory_section crc bytes position (header crc 7 rows ++ rows) ≡ ok (entries_at 32 fs)
    unfolding directory_section Cursor.remaining
    directory_section-rows = rw (
      header-regroup crc width 7 rows rows,
      u32-to_le 7
          (to_le 4 0 ++ (to_le 8 (length rows) ++ (to_le 4 (crc rows) ++ (to_le 4 0 ++ rows))))
          (omega arith),
      zeros crc width (to_le 8 (length rows) ++ (to_le 4 (crc rows) ++ (to_le 4 0 ++ rows))),
      u64-to_le (length rows) (to_le 4 (crc rows) ++ (to_le 4 0 ++ rows)) (omega (arith, size)),
      u32-to_le (crc rows) (to_le 4 0 ++ rows) (width rows),
      zeros crc width rows,
      eq→== (length rows) (length rows) refl,
      eq→== (crc rows) (crc rows) refl,
      directory_entries-rows,
    )

    first_eight : take 8 bytes ≡ magic
    first_eight = ap (take 8) whole

    head_fields : take 24 (drop 8 bytes) ≡ drop 8 file_head
    unfolding to_le
    head_fields = ap (λ t. take 24 (drop 8 t)) whole

    parse-image : parse crc bytes ≡ ok (entries_at 32 fs)
    unfolding parse
    parse-image = rw (
      le→ltb (length bytes) 88 (omega (arith, size, length-rows)),
      first_eight,
      bytes_eq_refl magic,
      head_fields,
      file_header-file_head,
      at_trailer,
      trailer_offset-trailer,
      at_directory,
      directory_section-rows,
    )

    payloads_in :
        (gs : List Frame) (offset : ℕ) (tail : List ℕ)
        → AllFrames gs
        → offset ≤ length bytes
        → drop offset bytes ≡ frames_bytes crc gs ++ tail
        → map (payload crc bytes) (entries_at offset gs) ≡ map (λ f. ok (body_of f)) gs
    payloads_in [] offset tail ok_gs inside here = refl
    payloads_in (g ∷ gs) offset tail ok_gs inside here =
        let inside' = next_inside crc width bytes offset g gs tail inside here in
        ap₂ (λ x y. x ∷ y)
          (payload-here crc width bytes offset g (frames_bytes crc gs ++ tail) inside ok_gs.0
            (omega arith) (here ∙ simp append_assoc))
          (payloads_in gs (offset + 24 + length (body_of g)) tail ok_gs.1 inside'
            (next_here crc width bytes offset g gs tail here))

    payloads : map (payload crc bytes) (entries_at 32 fs) ≡ map (λ f. ok (body_of f)) fs
    payloads =
        payloads_in fs 32 (header crc 7 rows ++ (rows ++ trailer)) all (omega (arith, size))
          frames_start

entries_first :
    (crc : List ℕ → ℕ) (fs : List Frame)
    → (file_writer.directory ++ entries_at file_writer.position fs) ≡ entries_at 32 fs
unfolding file_writer
entries_first crc fs = refl

-- A file of sections whose fields have their widths, with less than 2^64 bytes: `finish` returns its length, `parse`
-- returns the writer's directory, and `payload` of each entry is the body that `section` was given.
pub parse-finish :
    (crc : List ℕ → ℕ) (width : (bytes : List ℕ) → IsU32 (crc bytes)) (fs : List Frame)
    → AllFrames fs
    → IsU64 (length (finish crc (write_all crc fs file_writer)).0)
    → (let file = finish crc (write_all crc fs file_writer) in
        let directory = (write_all crc fs file_writer).directory in
        (file.1 ≡ length file.0)
        × (parse crc file.0 ≡ ok directory)
        × (map (payload crc file.0) directory ≡ map (λ f. ok (body_of f)) fs))
parse-finish crc width fs all fits =
    let file = finish-write_all crc width fs in
    let same : (finish crc (write_all crc fs file_writer)).0 ≡ image crc width fs =
      ap (λ t. t.0) file in
    let entries : (write_all crc fs file_writer).directory ≡ entries_at 32 fs =
      ap (λ w. w.directory) (write_all_lem crc fs file_writer) ∙ entries_first crc fs in
    rw entries (
      ap (λ t. t.1) file ∙ sym (ap length same ∙ length-image crc width fs),
      parse-image crc width fs _ same all fits,
      payloads crc width fs _ same all fits,
    )
