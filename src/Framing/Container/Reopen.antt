-- ===== src/Framing/Container/Reopen.antt =====
-- `parse_directory` on an image: the container that it makes.
use vtr.Prelude.{
  ℕ, ◌+◌, ◌-◌, ◌/◌, ◌≡◌, refl, sym, ap, ◌∙◌, Bool, true, false, not, ◌&&◌, some, List, [], ◌++◌,
  append-nil, append_assoc, length, length-append, bit_and, ltb, ◌==◌, eq→==, le→ltb, if◌then◌else◌,
  arith,
}
use mathlib.Core.Path.{ap₂}
use vtr.Prelude.Bytes.{IsU32, IsU64, to_le}
use vtr.Error.{ok}
use vtr.Wire.Cursor
use vtr.Wire.Cursor.Laws.{u64-to_le}
use vtr.Codec.{Backend}
use vtr.Framing.{RecordingId, header, complete, incomplete, header_bytes, trailer_magic}
use vtr.Framing.Writer.{directory, directory_entries}
use vtr.Framing.Container.{Container, section_at, payload, read_entries, parse_directory}
use vtr.Framing.Container.Read.{bare, section_at-here, payload-here}
use vtr.Framing.Container.Directory.{read_entries-frames}
use vtr.Framing.Image.{
  Frame, AllFrames, HasFreshBlocks, sections_at, body, ending, frames_bytes, directory_flags,
}
use vtr.Framing.Image.Sizes.{
  length-header, length-image, length-sections_at, length-directory, length-directory_entries,
}

module _ (backend : Backend) (crc : List ℕ → ℕ) (width : (bytes : List ℕ) → IsU32 (crc bytes)) where
  -- The container that an image is read as.
  abbrev pub reopened : List ℕ → RecordingId → List Frame → Bool → ℕ → Bool → Container
  reopened bytes identity fs partial dropped verify_crc = record {
    bytes = bytes;
    identity = identity;
    completion = if partial then incomplete else complete;
    dropped = dropped;
    fingerprint = some (record {
      recording = identity;
      length = length bytes;
      directory_crc = crc (directory (sections_at header_bytes fs) dropped);
    });
    sections = sections_at header_bytes fs;
    verify_crc = verify_crc;
  }

  module _ (bytes : List ℕ) (identity : RecordingId) (fs : List Frame) (partial : Bool)
      (dropped : ℕ) (verify_crc : Bool)
      (here : bytes
        ≡ body crc identity fs
          ++ ending crc partial
              (length (body crc identity fs))
              (directory (sections_at header_bytes fs) dropped))
      (size : length identity ≡ 16) (fits : IsU64 (length bytes)) (all : AllFrames fs)
      (fresh : HasFreshBlocks [] fs) (drops : IsU64 dropped)
      (none_dropped : partial ≡ false → dropped ≡ 0) where
    abbrev dir : List ℕ
    dir = directory (sections_at header_bytes fs) dropped

    abbrev position : ℕ
    position = length (body crc identity fs)

    abbrev trailer : List ℕ
    trailer = to_le 8 position ++ (to_le 8 (position + length dir + 48) ++ trailer_magic)

    length-bytes : length bytes ≡ position + length dir + 48
    length-bytes = ap length here ∙ length-image crc identity fs partial dropped

    start : length (header identity) ≡ header_bytes
    start = omega (arith, length-header identity, size)

    flags-IsU32 : (b : Bool) → IsU32 (directory_flags crc b)
    flags-IsU32 true = omega arith
    flags-IsU32 false = omega arith

    flags_masked : (b : Bool) → (bit_and (directory_flags crc b) 0xffff_fffd == 0) ≡ true
    flags_masked true = refl
    flags_masked false = refl

    dir-fits : IsU64 (length dir)
    dir-fits = omega (arith, length-bytes)

    found :
        section_at bytes position ≡ ok (bare 7 (directory_flags crc partial) position (length dir))
    found =
        section_at-here bytes (body crc identity fs) dir trailer 7 (directory_flags crc partial)
          (crc dir) here (omega arith) (flags-IsU32 partial) dir-fits (width dir)

    paid :
        payload backend crc bytes verify_crc
          (bare 7 (directory_flags crc partial) position (length dir))
          true
        ≡ ok dir
    paid =
        payload-here bytes (body crc identity fs) dir trailer 7 (directory_flags crc partial)
          (crc dir) here (omega arith) (flags-IsU32 partial) dir-fits (width dir) backend crc refl
          (bare 7 (directory_flags crc partial) position (length dir)) verify_crc true refl refl

    entries :
        read_entries bytes position
          (length (sections_at header_bytes fs))
          header_bytes
          []
          (directory_entries (sections_at header_bytes fs))
        ≡ ok (sections_at header_bytes fs, position, [])
    entries =
        ap₂ (λ (n : ℕ) d. read_entries bytes position n header_bytes [] d)
          (length-sections_at header_bytes fs)
          (sym (append-nil (directory_entries (sections_at header_bytes fs))))
        ∙ read_entries-frames crc width fs bytes (header identity) (ending crc partial position dir)
            [] header_bytes position []
            (here
              ∙ append_assoc (header identity) (frames_bytes crc fs)
                  (ending crc partial position dir))
            (sym start)
            (omega (arith, length-append (header identity) (frames_bytes crc fs), start))
            (omega (arith, length-bytes)) all fresh

    dir-size : length dir ≡ length bytes - position - 48
    dir-size = omega (arith, length-bytes)

    dir-split :
        dir
        ≡ to_le 8 (length (sections_at header_bytes fs))
          ++ (to_le 8 dropped ++ directory_entries (sections_at header_bytes fs))
    unfolding directory
    dir-split = refl

    count-IsU64 : IsU64 (length (sections_at header_bytes fs))
    count-IsU64 = omega (arith, dir-fits, length-directory (sections_at header_bytes fs) dropped)

    read_count :
        Cursor.u64 dir
        ≡ ok (
          length (sections_at header_bytes fs),
          to_le 8 dropped ++ directory_entries (sections_at header_bytes fs),
        )
    read_count = ap Cursor.u64 dir-split ∙ u64-to_le _ _ count-IsU64

    recovery_state :
        (b : Bool)
        → (b ≡ false → dropped ≡ 0)
        → (directory_flags crc b == 0 && not (dropped == 0)) ≡ false
    recovery_state true h = refl
    recovery_state false h = ground (arith, h refl)

    count_fits :
        ltb
          (length (directory_entries (sections_at header_bytes fs)) / 48)
          (length (sections_at header_bytes fs))
        ≡ false
    count_fits = le→ltb _ _ (omega (arith, length-directory_entries (sections_at header_bytes fs)))

    completed :
        (b : Bool)
        → (if directory_flags crc b == 0 then complete else incomplete)
          ≡ (if b then incomplete else complete)
    completed true = refl
    completed false = refl

    pub parse_directory-image :
        parse_directory backend crc bytes identity verify_crc position (length bytes)
        ≡ ok (reopened bytes identity fs partial dropped verify_crc)
    unfolding parse_directory Cursor.remaining Cursor.done
    parse_directory-image = rw (
      found,
      eq→== (length dir) (length bytes - position - 48) dir-size,
      flags_masked partial,
      paid,
      read_count,
      u64-to_le dropped (directory_entries (sections_at header_bytes fs)) drops,
      recovery_state partial none_dropped,
      count_fits,
      entries,
      eq→== position position refl,
      completed partial,
    )
