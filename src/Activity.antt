-- ===== src/Activity.antt =====
-- vtr-rs/src/activity: the sidecar index that says when a signal changes. This file has the types of
-- activity/mod.rs that the parts share.
pub mod Control
pub mod Format
pub mod Scan
pub mod Container
pub mod Index
use vtr.Prelude.{ℕ, ◌≡◌, Bool, List, [], ◌∷◌, ◌==◌, if◌then◌else◌}
use vtr.Error.{Result, ok, err, corrupt}
use vtr.Framing.{RecordingId}

abbrev pub magic : List ℕ
magic = 0x89 ∷ b'V' ∷ b'T' ∷ b'I' ∷ 13 ∷ 10 ∷ 26 ∷ 10 ∷ []

abbrev pub version : ℕ
version = 4

-- `SourceFormat::Vtr`
pub data SourceFormat : Type 0 where
  vtr_format : SourceFormat

abbrev pub code : SourceFormat → ℕ
code vtr_format = 1

abbrev pub from_code : ℕ → Result SourceFormat
from_code c = if c == 1 then ok vtr_format else err (corrupt "unknown activity index source format")

pub record Identity : Type 0 where
  pub format : SourceFormat
  pub length : ℕ
  pub toc_crc : ℕ
  pub recording : RecordingId

pub record Block : Type 0 where
  pub start : ℕ
  pub end : ℕ
  pub bytes : ℕ
