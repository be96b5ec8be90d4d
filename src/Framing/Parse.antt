-- ===== src/Framing/Parse.antt =====
-- vtr-rs/src/framing.rs: `Container::parse`, by the directory or by a scan of the complete sections, and
-- the copy that `recover` makes. Which files a path names is the operating system's matter and is not here.
pub mod RoundTrip
use vtr.Prelude.{
  ℕ, ◌+◌, ◌-◌, ◌^◌, ◌≤◌, ◌<◌, ◌≡◌, Bool, true, false, not, ◌&&◌, ◌||◌, Option, none, some, List, [],
  ◌∷◌, ◌++◌, length, drop, bytes_eq, ltb, leb, ◌==◌, if◌then◌else◌, lt_wf, arith,
}
use vtr.Error.{Error, Result, ok, err, corrupt, unsupported_version, ◌>>=◌, ◌>>◌}
use vtr.Wire.Cursor
use vtr.Wire.Cursor.{Cursor}
use vtr.Codec.{Backend}
use vtr.Codec.Blob
use vtr.Framing.{
  RecordingId, zero_identity, unfinished, Fingerprint, Section, is_block, magic, trailer_magic,
  version_major, version_minor, header_bytes, section_bytes,
}
use vtr.Framing.Writer.{Sink, FramedWriter, with_identity, section, finish}
use vtr.Framing.Container.{Container, section_at, payload, ends_with, parse_directory}
use mathlib.Core.Logic.{dite}
use mathlib.Core.WellFounded.{Acc}
use native.Mathlib.Decide.{dec_le}

pub section_shrinks : (left size : ℕ) → 24 ≤ left → left - (24 + size) < left
section_shrinks left size h = omega arith

module _ (backend : Backend) (crc : List ℕ → ℕ) where
  abbrev with_aux : Section → ℕ → ℕ → Section
  with_aux s a b = record s { aux0 = a; aux1 = b }

  -- The `match section.kind`: the bounds that the directory would have held.
  recover_bounds : Section → List ℕ → Result Section
  recover_bounds s p =
      if s.kind == 4
      then (do (a, d1) ← Cursor.u64 p; (b, d2) ← Cursor.u64 d1; ok (with_aux s a b))
      else if is_block s.kind
      then (do
        (n, d1) ← Cursor.u64 p
        (skipped, d2) ← Cursor.take (if s.kind == 5 then 32 else 24) d1
        (a, d3) ← Cursor.u64 d2
        (b, d4) ← Cursor.u64 d3
        ok (record s { aux0 = a; aux1 = b; block_number = n }))
      else if s.kind == 10
      then (do (a, d1) ← Cursor.var p; (b, d2) ← Cursor.var d1; ok (with_aux s a b))
      else if s.kind == 2 || s.kind == 3
      then (do
        (c, d1) ← Cursor.byte p
        (size, d2) ← Cursor.var d1
        raw ← Blob.decompress backend p size
        (a, d3) ← Cursor.var raw
        (b, d4) ← Cursor.var d3
        ok (with_aux s a b))
      else ok s

  recover_section : List ℕ → ℕ → Result Section
  recover_section bytes offset = do
    s ← section_at bytes offset
    if s.kind == 0 || s.kind == 7
        then err (corrupt "end of recoverable prefix")
        else do p ← payload backend crc bytes false s true; recover_bounds s p

  -- `while bytes.len() - offset >= 24`: `left` is that difference. The result is the sections and the
  -- offset at which the scan stopped.
  scan : List ℕ → (left : ℕ) → Acc ◌<◌ left → ℕ → List Section × ℕ
  scan bytes left (Acc.intro _ smaller) offset =
      dite (dec_le 24 left)
        (λ h. elim (recover_section bytes offset) [
          | err e ↦ ([], offset)
          | ok s ↦
              let (ss, last) =
                scan bytes (left - (24 + s.length))
                  (smaller (left - (24 + s.length)) (section_shrinks left s.length h))
                  (offset + 24 + s.length) in
              (s ∷ ss, last)
        ])
        (λ _. ([], offset))

  pub recover_scan : List ℕ → ℕ → List Section × ℕ
  recover_scan bytes offset =
      scan bytes (length bytes - offset) (lt_wf.apply (length bytes - offset)) offset

  scanned : List ℕ → RecordingId → Bool → Container
  scanned bytes identity verify_crc = record {
    bytes = bytes;
    identity = identity;
    completion = unfinished;
    dropped = length bytes - (recover_scan bytes header_bytes).1;
    fingerprint = none;
    sections = (recover_scan bytes header_bytes).0;
    verify_crc = verify_crc;
  }

  -- The trailer's offset and length, and the test that they are plausible.
  by_trailer : List ℕ → RecordingId → Bool → Result Container
  by_trailer bytes identity verify_crc = do
    (offset, d1) ← Cursor.u64 (drop (length bytes - 24) bytes)
    (size, d2) ← Cursor.u64 d1
    if size == length bytes && (leb 32 offset && leb offset (size - 48))
        then parse_directory backend crc bytes identity verify_crc offset size
        else ok (scanned bytes identity verify_crc)

  parse_body : List ℕ → RecordingId → Bool → Bool → Result Container
  parse_body bytes identity verify_crc use_directory =
      if use_directory && (leb 56 (length bytes) && ends_with bytes trailer_magic)
      then by_trailer bytes identity verify_crc
      else ok (scanned bytes identity verify_crc)

  -- The header.
  parse_header : Cursor → Result RecordingId
  parse_header d = do
    (m, d1) ← Cursor.take 8 d
    if not (bytes_eq m magic) then err (corrupt "invalid VTR magic") else do
      (major, d2) ← Cursor.fixed_le 2 d1
      (minor, d3) ← Cursor.fixed_le 2 d2
      if not (major == version_major && minor == version_minor)
          then err (unsupported_version "VTR" major minor version_major version_minor)
          else do
            (flags, d4) ← Cursor.u32 d3
            if not (flags == 0) then err (corrupt "unsupported VTR header flags") else do
              (identity, d5) ← Cursor.take 16 d4
              if bytes_eq identity zero_identity
                  then err (corrupt "missing recording identity")
                  else ok identity

  pub parse : List ℕ → Bool → Bool → Result Container
  parse bytes verify_crc use_directory = do
    identity ← parse_header bytes
    parse_body bytes identity verify_crc use_directory

  unfoldable pub from_bytes : List ℕ → Bool → Result Container
  from_bytes bytes verify_crc = parse bytes verify_crc true

  -- `recover` between opening the input and closing the output.
  has_metadata : List Section → Bool
  has_metadata [] = false
  has_metadata (s ∷ ss) = s.kind == 1 || has_metadata ss

  module _ (sink : Sink) where
    copy_sections : List ℕ → List Section → FramedWriter sink crc → Result (FramedWriter sink crc)
    copy_sections bytes [] w = ok w
    copy_sections bytes (s ∷ ss) w = do
      p ← payload backend crc bytes true s true
      w' ← section sink crc s.kind s.flags p s.aux0 s.aux1 s.block_number w
      copy_sections bytes ss w'

    pub recover : List ℕ → sink.Output → Result (Fingerprint × FramedWriter sink crc)
    recover bytes output = do
      parsed ← parse bytes true false
      if not (has_metadata parsed.sections)
          then err (corrupt "recovery prefix has no metadata")
          else do
            w ← with_identity sink crc output parsed.identity
            w' ← copy_sections bytes parsed.sections w
            finish sink crc true parsed.dropped w'
