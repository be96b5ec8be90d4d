-- ===== src/Framing/Image/Sizes.antt =====
-- The lengths of the parts of an image.
use vtr.Prelude.{
  ℕ, suc, ◌+◌, ◌*◌, ◌≡◌, refl, ap, ◌∙◌, Bool, List, [], ◌∷◌, ◌++◌, append_assoc, length,
  length-append, arith,
}
use vtr.Prelude.Bytes.{to_le}
use vtr.Framing.{RecordingId, Section, header, section_header, trailer_magic}
use vtr.Framing.Writer.{directory, directory_entry, directory_entries}
use vtr.Framing.Image.{
  Frame, section_of, sections_at, frame_header, frames_bytes, body, ending, image, directory_flags,
}

pub length-section_header :
    (kind flags size crc : ℕ) → length (section_header kind flags size crc) ≡ 24
unfolding section_header to_le
length-section_header kind flags size crc = refl

pub length-header : (identity : RecordingId) → length (header identity) ≡ 16 + length identity
unfolding header to_le
length-header identity = omega arith

pub length-directory_entries : (ss : List Section) → length (directory_entries ss) ≡ 48 * length ss
unfolding directory_entries directory_entry to_le
length-directory_entries [] = refl
length-directory_entries (s ∷ ss) = omega (arith, length-directory_entries ss)

pub length-directory :
    (ss : List Section) (dropped : ℕ) → length (directory ss dropped) ≡ 16 + 48 * length ss
unfolding directory to_le
length-directory ss dropped = omega (arith, length-directory_entries ss)

pub length-sections_at : (offset : ℕ) (fs : List Frame) → length (sections_at offset fs) ≡ length fs
length-sections_at offset [] = refl
length-sections_at offset (f ∷ fs) = ap suc (length-sections_at (offset + 24 + length f.payload) fs)

module _ (crc : List ℕ → ℕ) where
  pub length-frames_bytes :
      (f : Frame) (fs : List Frame)
      → length (frames_bytes crc (f ∷ fs)) ≡ 24 + length f.payload + length (frames_bytes crc fs)
  length-frames_bytes f fs =
      length-append (frame_header crc f) (f.payload ++ frames_bytes crc fs)
      ∙ omega (
        arith,
        length-section_header f.kind f.flags (length f.payload) (crc f.payload),
        length-append f.payload (frames_bytes crc fs),
      )

  pub frames_bytes-append :
      (fs gs : List Frame)
      → frames_bytes crc (fs ++ gs) ≡ frames_bytes crc fs ++ frames_bytes crc gs
  frames_bytes-append [] gs = refl
  frames_bytes-append (f ∷ fs) gs = rw (frames_bytes-append fs gs, append_assoc, append_assoc)

  pub sections_at-append :
      (offset : ℕ) (fs gs : List Frame)
      → sections_at offset (fs ++ gs)
        ≡ sections_at offset fs ++ sections_at (offset + length (frames_bytes crc fs)) gs
  sections_at-append offset [] gs = ap (λ (t : ℕ). sections_at t gs) (omega arith)
  sections_at-append offset (f ∷ fs) gs =
      ap (λ t. section_of f offset ∷ t)
        (sections_at-append (offset + 24 + length f.payload) fs gs
          ∙ ap (λ (t : ℕ). sections_at (offset + 24 + length f.payload) fs ++ sections_at t gs)
              (omega (arith, length-frames_bytes f fs)))

  length-trailer :
      (position total : ℕ) → length (to_le 8 position ++ (to_le 8 total ++ trailer_magic)) ≡ 24
  unfolding to_le
  length-trailer position total = refl

  pub length-image :
      (identity : RecordingId) (fs : List Frame) (partial : Bool) (dropped : ℕ)
      → length (image crc identity fs partial dropped)
        ≡ length (body crc identity fs) + length (directory (sections_at 32 fs) dropped) + 48
  length-image identity fs partial dropped =
      let front = body crc identity fs in
      let dir = directory (sections_at 32 fs) dropped in
      let head = section_header 7 (directory_flags crc partial) (length dir) (crc dir) in
      let trailer =
        to_le 8 (length front) ++ (to_le 8 (length front + length dir + 48) ++ trailer_magic) in
      length-append front (ending crc partial (length front) dir)
      ∙ omega (
        arith,
        length-append head (dir ++ trailer),
        length-section_header 7 (directory_flags crc partial) (length dir) (crc dir),
        length-append dir trailer,
        length-trailer (length front) (length front + length dir + 48),
      )
