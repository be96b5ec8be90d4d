-- ===== src/Framing/Writer/Total.antt =====
-- Over an output that never fails, the calls of the writer return, with the errors that its own guards give.
use vtr.Prelude.{
  ℕ, ◌+◌, ◌≡◌, ap, ◌∙◌, Bool, true, false, not, ◌&&◌, List, [], ◌∷◌, ◌++◌, length, bytes_eq, ◌==◌,
  if◌then◌else◌, arith,
}
use vtr.Prelude.Bytes.{IsU64, to_le}
use vtr.Error.{Result, ok}
use vtr.Framing.{
  RecordingId, zero_identity, Fingerprint, Section, invalid_kind, header, section_header,
  trailer_magic, header_bytes, section_bytes,
}
use vtr.Framing.Writer.{
  Sink, FramedWriter, with_identity, advance, write_section, section, write_directory, finish,
  directory,
}
use vtr.Framing.Image.{Frame, section_of}

pass : {X : Type 0} (c : Bool) (x m : Result X) → c ≡ false → (if c then x else m) ≡ m
pass c x m h = ap (λ t. if t then x else m) h

-- No write and no flush fails.
pub record IsReliable (sink : Sink) : Type 0 where
  pub writes :
      (bytes : List ℕ) (o : sink.Output) → (o' : sink.Output) × (sink.write_all bytes o ≡ ok o')
  pub flushes : (o : sink.Output) → (o' : sink.Output) × (sink.flush o ≡ ok o')

module _ (sink : Sink) (crc : List ℕ → ℕ) (reliable : IsReliable sink) where
  advance_total :
      (position a b : ℕ)
      → IsU64 (position + a + b)
      → advance sink crc position a b ≡ ok (position + a + b)
  advance_total position a b h = ground arith

  write_section_total :
      (w : FramedWriter sink crc) (s : Section) (payload : List ℕ)
      → IsU64 (w.position + section_bytes + length payload)
      → (w' : FramedWriter sink crc) × (write_section sink crc w s payload ≡ ok w')
  unfolding write_section
  write_section_total w s payload fits =
      let (o1, first) =
        reliable.writes (section_header s.kind s.flags (length payload) (crc payload)) w.output in
      let (o2, second) = reliable.writes payload o1 in
      (
        record w {
          output = o2;
          sections = w.sections ++ s ∷ [];
          position = w.position + section_bytes + length payload;
        },
        rw (advance_total w.position section_bytes (length payload) fits, first, second),
      )

  pub section_total :
      (w : FramedWriter sink crc) (f : Frame)
      → w.finished ≡ false
      → invalid_kind f.kind f.block_number ≡ false
      → IsU64 (w.position + section_bytes + length f.payload)
      → (w' : FramedWriter sink crc) × (section sink crc f.kind f.flags f.payload f.aux0 f.aux1
            f.block_number w
          ≡ ok w')
  unfolding section
  section_total w f still valid fits =
      let (w', wrote) = write_section_total w (section_of f w.position) f.payload fits in
      (w', pass _ _ _ still ∙ (pass _ _ _ valid ∙ wrote))

  pub with_identity_total :
      (output : sink.Output) (identity : RecordingId)
      → bytes_eq identity zero_identity ≡ false
      → (w : FramedWriter sink crc) × (with_identity sink crc output identity ≡ ok w)
  unfolding with_identity
  with_identity_total output identity nonzero =
      let (o, wrote) = reliable.writes (header identity) output in
      (
        record {
          output = o;
          identity = identity;
          position = header_bytes;
          sections = [];
          finished = false;
        },
        rw (nonzero, wrote),
      )

  write_directory_total :
      (w : FramedWriter sink crc) (partial : Bool) (bytes : List ℕ)
      → IsU64 (w.position + length bytes + 48)
      → (r : Fingerprint × FramedWriter sink crc) × (write_directory sink crc w partial bytes
          ≡ ok r)
  unfolding write_directory
  write_directory_total w partial bytes fits =
      let total = w.position + length bytes + 48 in
      let (o1, p1) =
        reliable.writes (section_header 7 (if partial then 2 else 0) (length bytes) (crc bytes))
          w.output in
      let (o2, p2) = reliable.writes bytes o1 in
      let (o3, p3) = reliable.writes (to_le 8 w.position) o2 in
      let (o4, p4) = reliable.writes (to_le 8 (w.position + length bytes + 48)) o3 in
      let (o5, p5) = reliable.writes trailer_magic o4 in
      let (o6, p6) = reliable.flushes o5 in
      (
        (
          record { recording = w.identity; length = total; directory_crc = crc bytes },
          record w { output = o6; position = total; finished = true },
        ),
        rw (advance_total w.position (length bytes) 48 fits, p1, p2, p3, p4, p5, p6),
      )

  pub finish_total :
      (w : FramedWriter sink crc) (partial : Bool) (dropped : ℕ)
      → w.finished ≡ false
      → (partial ≡ false → dropped ≡ 0)
      → IsU64 (w.position + length (directory w.sections dropped) + 48)
      → (r : Fingerprint × FramedWriter sink crc) × (finish sink crc partial dropped w ≡ ok r)
  unfolding finish
  finish_total w partial dropped still none_dropped fits =
      let (r, wrote) = write_directory_total w partial (directory w.sections dropped) fits in
      let guard : (not partial && not (dropped == 0)) ≡ false = ground (arith, none_dropped) in
      (r, pass _ _ _ still ∙ (pass _ _ _ guard ∙ wrote))
