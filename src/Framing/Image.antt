-- ===== src/Framing/Image.antt =====
-- What a container holds, as a list of frames, and the bytes that they are in a file. This is the
-- description that the writer and the reader of vtr-rs/src/framing.rs are compared with.
pub mod Sizes
use vtr.Prelude.{
  ℕ, ◌+◌, ◌≡◌, Bool, false, not, ◌&&◌, List, [], ◌∷◌, ◌++◌, length, elem, ◌==◌, if◌then◌else◌,
}
use vtr.Prelude.Bytes.{IsU32, IsU64, to_le}
use vtr.Framing.{RecordingId, Section, invalid_kind, header, section_header, trailer_magic}
use vtr.Framing.Writer.{directory}
use vtr.Framing.Container.{insert_block}

-- The arguments of one call of `section`.
pub record Frame : Type 0 where
  pub kind : ℕ
  pub flags : ℕ
  pub payload : List ℕ
  pub aux0 : ℕ
  pub aux1 : ℕ
  pub block_number : ℕ

-- The arguments have the widths of their types, and the kind agrees with the block number.
pub record IsFrame (f : Frame) : Type 0 where
  pub kind : IsU32 f.kind
  pub flags : IsU32 f.flags
  pub aux0 : IsU64 f.aux0
  pub aux1 : IsU64 f.aux1
  pub block_number : IsU64 f.block_number
  pub valid : invalid_kind f.kind f.block_number ≡ false

abbrev pub AllFrames : List Frame → Type 0
AllFrames [] = Unit
AllFrames (f ∷ fs) = IsFrame f × AllFrames fs

-- No block number other than 0 occurs twice, or in `blocks`.
abbrev pub HasFreshBlocks : List ℕ → List Frame → Type 0
HasFreshBlocks blocks [] = Unit
HasFreshBlocks blocks (f ∷ fs) =
    ((not (f.block_number == 0) && elem f.block_number blocks) ≡ false)
    × HasFreshBlocks (insert_block f.block_number blocks) fs

abbrev pub section_of : Frame → ℕ → Section
section_of f offset = record {
  kind = f.kind;
  flags = f.flags;
  offset = offset;
  length = length f.payload;
  aux0 = f.aux0;
  aux1 = f.aux1;
  block_number = f.block_number;
}

-- The frames' sections from an offset on.
abbrev pub sections_at : ℕ → List Frame → List Section
sections_at offset [] = []
sections_at offset (f ∷ fs) = section_of f offset ∷ sections_at (offset + 24 + length f.payload) fs

module _ (crc : List ℕ → ℕ) where
  abbrev pub frame_header : Frame → List ℕ
  frame_header f = section_header f.kind f.flags (length f.payload) (crc f.payload)

  abbrev pub frames_bytes : List Frame → List ℕ
  frames_bytes [] = []
  frames_bytes (f ∷ fs) = frame_header f ++ (f.payload ++ frames_bytes fs)

  -- The header and the frames: what a recovery can find.
  abbrev pub body : RecordingId → List Frame → List ℕ
  body identity fs = header identity ++ frames_bytes fs

  abbrev pub directory_flags : Bool → ℕ
  directory_flags incomplete = if incomplete then 2 else 0

  -- The directory's section and the trailer, behind a body of `position` bytes.
  abbrev pub ending : Bool → ℕ → List ℕ → List ℕ
  ending incomplete position bytes =
      section_header 7 (directory_flags incomplete) (length bytes) (crc bytes)
      ++ (bytes ++ (to_le 8 position ++ (to_le 8 (position + length bytes + 48) ++ trailer_magic)))

  abbrev pub image : RecordingId → List Frame → Bool → ℕ → List ℕ
  image identity fs incomplete dropped =
      body identity fs
      ++ ending incomplete (length (body identity fs)) (directory (sections_at 32 fs) dropped)
