-- ===== src/Framing.antt =====
-- vtr-rs/src/framing.rs: the container of a recording. `Framing.Writer` has `FramedWriter`, `Framing.Container`
-- the reader, and this file the data that they share. `crc32fast::hash` is the parameter `crc`.
pub mod Writer
pub mod Container
pub mod Parse
pub mod Image
pub mod Session
use vtr.Prelude.{
  ℕ, ◌+◌, ◌^◌, ◌≡◌, Bool, not, ◌||◌, Option, List, [], ◌∷◌, ◌++◌, replicate, ◌==◌, if◌then◌else◌,
}
use vtr.Prelude.Bytes.{to_le}

abbrev pub magic : List ℕ
magic = 0x89 ∷ b'V' ∷ b'T' ∷ b'R' ∷ 13 ∷ 10 ∷ 26 ∷ 10 ∷ []

-- `VTR_END\0`
abbrev pub trailer_magic : List ℕ
trailer_magic = b'V' ∷ b'T' ∷ b'R' ∷ b'_' ∷ b'E' ∷ b'N' ∷ b'D' ∷ 0 ∷ []

abbrev pub version_major : ℕ
version_major = 3

abbrev pub version_minor : ℕ
version_minor = 4

abbrev pub header_bytes : ℕ
header_bytes = 32

abbrev pub section_bytes : ℕ
section_bytes = 24

-- The sixteen bytes of a `RecordingId`.
abbrev pub RecordingId : Type 0
RecordingId = List ℕ

abbrev pub zero_identity : RecordingId
zero_identity = replicate 16 0

pub data Completion : Type 0 where
  complete incomplete unfinished : Completion

pub record Fingerprint : Type 0 where
  pub recording : RecordingId
  pub length : ℕ
  pub directory_crc : ℕ

pub record Section : Type 0 where
  pub kind : ℕ
  pub flags : ℕ
  pub offset : ℕ
  pub length : ℕ
  pub aux0 : ℕ
  pub aux1 : ℕ
  pub block_number : ℕ

abbrev pub payload_offset : Section → ℕ
payload_offset s = s.offset + section_bytes

-- `matches!(kind, 5 | 9)`
abbrev pub is_block : ℕ → Bool
is_block kind = kind == 5 || kind == 9

-- `kind == 0 || kind == 7 || (matches!(kind, 5 | 9) != (block_number != 0))`
abbrev pub invalid_kind : ℕ → ℕ → Bool
invalid_kind kind block_number =
    kind == 0 || kind == 7 || (if is_block kind then block_number == 0 else not (block_number == 0))

-- The reserved four bytes before the identity stay zero.
unfoldable pub header : RecordingId → List ℕ
header identity =
    magic ++ (to_le 2 version_major ++ (to_le 2 version_minor ++ (replicate 4 0 ++ identity)))

-- The reserved last four bytes stay zero.
unfoldable pub section_header : ℕ → ℕ → ℕ → ℕ → List ℕ
section_header kind flags length crc =
    to_le 4 kind ++ (to_le 4 flags ++ (to_le 8 length ++ (to_le 4 crc ++ replicate 4 0)))
