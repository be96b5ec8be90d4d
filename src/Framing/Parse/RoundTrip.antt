-- ===== src/Framing/Parse/RoundTrip.antt =====
-- A file that the writer finished is opened again: `parse` finds the header, the trailer and the
-- directory, and the container has the writer's sections.
use vtr.Prelude.{
  ℕ, ◌+◌, ◌-◌, ◌≤◌, ◌≡◌, refl, sym, ap, ◌∙◌, Bool, true, false, List, [], ◌++◌, append_assoc,
  length, length-append, drop, drop-append, replicate, bytes_eq, bytes_eq_refl, eq→==, le→leb,
  arith,
}
use vtr.Prelude.Bytes.{IsU32, IsU64, to_le}
use vtr.Error.{ok}
use vtr.Wire.Cursor
use vtr.Wire.Cursor.Laws.{take-front, u32-to_le, fixed_le-to_le, u64-to_le}
use vtr.Codec.{Backend}
use vtr.Framing.{
  RecordingId, section_header, zero_identity, magic, trailer_magic, version_major, version_minor,
  header, header_bytes,
}
use vtr.Framing.Writer.{directory}
use vtr.Framing.Container.{ends_with, parse_directory}
use vtr.Framing.Container.Reopen.{reopened, parse_directory-image}
use vtr.Framing.Image.{
  Frame, AllFrames, HasFreshBlocks, sections_at, body, ending, image, frames_bytes, directory_flags,
}
use vtr.Framing.Image.Sizes.{length-header, length-directory, length-image}
use vtr.Framing.Parse.{parse_header, by_trailer, parse_body, parse}

drop-suffix :
    (bytes front back : List ℕ) (n : ℕ)
    → bytes ≡ front ++ back
    → n ≡ length back
    → drop (length bytes - n) bytes ≡ back
drop-suffix bytes front back n e h =
    ap (drop (length bytes - n)) e
    ∙ drop-append (length bytes - n) front back
        (omega (arith, ap length e, length-append front back))

ends_with-suffix : (bytes front back : List ℕ) → bytes ≡ front ++ back → ends_with bytes back ≡ true
unfolding ends_with
ends_with-suffix bytes front back e = rw (
  drop-suffix bytes front back (length back) e refl,
  bytes_eq_refl back,
  le→leb (length back) (length bytes) (omega (arith, ap length e, length-append front back)),
)

module _ (backend : Backend) (crc : List ℕ → ℕ) (width : (bytes : List ℕ) → IsU32 (crc bytes)) where
  zero_flags : (rest : List ℕ) → Cursor.u32 (replicate 4 0 ++ rest) ≡ ok (0, rest)
  unfolding to_le
  zero_flags rest = u32-to_le 0 rest (omega arith)

  header-regroup :
      (identity rest : List ℕ)
      → header identity ++ rest
        ≡ magic
          ++ (to_le 2 version_major
              ++ (to_le 2 version_minor ++ (replicate 4 0 ++ (identity ++ rest))))
  unfolding header
  header-regroup identity rest = simp append_assoc

  parse_header-header :
      (bytes : List ℕ) (identity : RecordingId) (rest : List ℕ)
      → bytes ≡ header identity ++ rest
      → length identity ≡ 16
      → bytes_eq identity zero_identity ≡ false
      → parse_header backend crc bytes ≡ ok identity
  unfolding parse_header
  parse_header-header bytes identity rest e size nonzero = rw (
    e ∙ header-regroup identity rest,
    take-front 8 magic
        (to_le 2 version_major ++ (to_le 2 version_minor ++ (replicate 4 0 ++ (identity ++ rest))))
        refl,
    bytes_eq_refl magic,
    fixed_le-to_le 2 version_major (to_le 2 version_minor ++ (replicate 4 0 ++ (identity ++ rest)))
        (omega arith),
    fixed_le-to_le 2 version_minor (replicate 4 0 ++ (identity ++ rest)) (omega arith),
    zero_flags (identity ++ rest),
    take-front 16 identity rest (sym size),
    nonzero,
  )

  module _ (identity : RecordingId) (fs : List Frame) (partial : Bool) (dropped : ℕ)
      (verify_crc : Bool) (size : length identity ≡ 16)
      (fits : IsU64 (length (image crc identity fs partial dropped))) (all : AllFrames fs)
      (fresh : HasFreshBlocks [] fs) (drops : IsU64 dropped)
      (none : partial ≡ false → dropped ≡ 0) where
    abbrev bytes : List ℕ
    bytes = image crc identity fs partial dropped

    abbrev position : ℕ
    position = length (body crc identity fs)

    abbrev dir : List ℕ
    dir = directory (sections_at header_bytes fs) dropped

    abbrev before : List ℕ
    before =
        body crc identity fs
        ++ (section_header 7 (directory_flags crc partial) (length dir) (crc dir) ++ dir)

    abbrev total : List ℕ
    total = to_le 8 (position + length dir + 48)

    at_trailer : bytes ≡ before ++ (to_le 8 position ++ (total ++ trailer_magic))
    at_trailer = simp append_assoc

    at_magic : bytes ≡ (before ++ (to_le 8 position ++ total)) ++ trailer_magic
    at_magic = simp append_assoc

    length-trailer : 24 ≡ length (to_le 8 position ++ (total ++ trailer_magic))
    unfolding to_le
    length-trailer = refl

    whole : length bytes ≡ position + length dir + 48
    whole = length-image crc identity fs partial dropped

    low : header_bytes ≤ position
    low =
        omega (
          arith,
          length-append (header identity) (frames_bytes crc fs),
          length-header identity,
          size,
        )

    by_trailer-image :
        by_trailer backend crc bytes identity verify_crc
        ≡ ok (reopened backend crc width bytes identity fs partial dropped verify_crc)
    unfolding by_trailer
    by_trailer-image =
        rw
          (
            drop-suffix bytes before (to_le 8 position ++ (total ++ trailer_magic)) 24 at_trailer
                length-trailer,
            u64-to_le position (total ++ trailer_magic) (omega (arith, whole)),
            u64-to_le (position + length dir + 48) trailer_magic (omega (arith, whole)),
            eq→== (position + length dir + 48) (length bytes) (sym whole),
            le→leb 32 position low,
            le→leb position (position + length dir + 48 - 48) (omega arith),
          )
          (ap (parse_directory backend crc bytes identity verify_crc position) (sym whole)
            ∙ parse_directory-image backend crc width bytes identity fs partial dropped verify_crc
                refl size fits all fresh drops none)

    parse_body-image :
        parse_body backend crc bytes identity verify_crc true
        ≡ ok (reopened backend crc width bytes identity fs partial dropped verify_crc)
    unfolding parse_body
    parse_body-image = rw (
      le→leb 56 (length bytes)
          (omega (arith, whole, low, length-directory (sections_at header_bytes fs) dropped)),
      ends_with-suffix bytes (before ++ (to_le 8 position ++ total)) trailer_magic at_magic,
      by_trailer-image,
    )

    -- A finished file, opened with its directory, gives back the identity, the sections with their bounds and
    -- block numbers, what was dropped and whether it is complete, and the fingerprint of its directory. The
    -- identity has sixteen bytes and is not zero, the frames have valid kinds, the widths of their types and
    -- no block number twice, complete output reports no dropped bytes, and length and dropped bytes are u64.
    pub parse-image :
        bytes_eq identity zero_identity ≡ false
        → parse backend crc (image crc identity fs partial dropped) verify_crc true
          ≡ ok (
              reopened backend crc width
                (image crc identity fs partial dropped)
                identity
                fs
                partial
                dropped
                verify_crc)
    unfolding parse
    parse-image nonzero = rw (
      parse_header-header bytes identity (frames_bytes crc fs ++ ending crc partial position dir)
          (append_assoc (header identity) (frames_bytes crc fs) (ending crc partial position dir))
          size nonzero,
      parse_body-image,
    )
