-- ===== src/Framing/Session.antt =====
-- A whole recording on vtr-rs/src/framing.rs: a new writer, its sections, `finish`, and `Container::from_bytes`
-- on the file.
pub mod Total
use vtr.Prelude.{
  ℕ, ◌≡◌, refl, sym, ap, ◌∙◌, Bool, false, some, List, [], ◌∷◌, ◌++◌, append-nil, append_assoc,
  length, if◌then◌else◌,
}
use mathlib.Core.Path.{subst, subst₂}
use vtr.Prelude.Bytes.{IsU32, IsU64}
use vtr.Error.{Result, ok, ◌>>=◌, >>=-eq-ok}
use vtr.Codec.{Backend}
use vtr.Framing.{RecordingId, complete, incomplete, Fingerprint, header_bytes, invalid_kind}
use vtr.Framing.Writer.{Sink, FramedWriter, with_identity, section, finish, directory}
use vtr.Framing.Writer.Images.{IsImage, with_identity-IsImage, section-IsImage}
use vtr.Framing.Writer.Endings.{IsComplete, finish-IsComplete}
use vtr.Framing.Container.{Container}
use vtr.Framing.Container.Reopen.{reopened}
use vtr.Framing.Image.{Frame, IsFrame, AllFrames, HasFreshBlocks, image, sections_at}
use vtr.Framing.Image.Sizes.{length-image}
use vtr.Framing.Parse.{from_bytes}
use vtr.Framing.Parse.RoundTrip.{parse-image}

-- The arguments have the widths of their types.
pub record HasWidths (f : Frame) : Type 0 where
  pub kind : IsU32 f.kind
  pub flags : IsU32 f.flags
  pub aux0 : IsU64 f.aux0
  pub aux1 : IsU64 f.aux1
  pub block_number : IsU64 f.block_number

abbrev pub AllWidths : List Frame → Type 0
AllWidths [] = Unit
AllWidths (f ∷ fs) = HasWidths f × AllWidths fs

fingerprint_ext :
    (fp fq : Fingerprint)
    → fp.recording ≡ fq.recording
    → fp.length ≡ fq.length
    → fp.directory_crc ≡ fq.directory_crc
    → fp ≡ fq
fingerprint_ext fp fq p q r = λ i. record { recording = p i; length = q i; directory_crc = r i }

module _ (sink : Sink) (crc : List ℕ → ℕ) where
  -- One call of `section` for each frame, and the calls before and after them.
  unfoldable pub write_frames : List Frame → FramedWriter sink crc → Result (FramedWriter sink crc)
  write_frames [] w = ok w
  write_frames (f ∷ fs) w = do
    w' ← section sink crc f.kind f.flags f.payload f.aux0 f.aux1 f.block_number w
    write_frames fs w'

  unfoldable pub record_file :
      sink.Output
      → RecordingId
      → List Frame
      → Bool
      → ℕ
      → Result (Fingerprint × FramedWriter sink crc)
  unfolding write_frames
  record_file output identity fs partial dropped = do
    w ← with_identity sink crc output identity
    w' ← write_frames fs w
    finish sink crc partial dropped w'

  frame_of : (f : Frame) → HasWidths f → invalid_kind f.kind f.block_number ≡ false → IsFrame f
  frame_of f h v = record {
    kind = h.kind;
    flags = h.flags;
    aux0 = h.aux0;
    aux1 = h.aux1;
    block_number = h.block_number;
    valid = v;
  }

  -- The writer holds, in order, the frames whose calls succeeded, and only frames of a valid kind.
  pub write_frames-IsImage :
      (identity : RecordingId) (before fs : List Frame) (w w' : FramedWriter sink crc)
      → length identity ≡ 16
      → AllWidths fs
      → IsImage sink crc identity before w
      → write_frames fs w ≡ ok w'
      → IsImage sink crc identity (before ++ fs) w' × AllFrames fs
  unfolding write_frames
  write_frames-IsImage identity before [] w w' size widths im h =
      (subst₂ (IsImage sink crc identity) (sym (append-nil before)) (cc) im, tt)
  write_frames-IsImage identity before (f ∷ fs) w w' size (hf, widths) im h =
      let (w1, one, rest) =
        >>=-eq-ok (section sink crc f.kind f.flags f.payload f.aux0 f.aux1 f.block_number w) _ h in
      let (im1, valid, fits) = section-IsImage sink crc identity before w f size im one in
      let (im2, all) =
        write_frames-IsImage identity (before ++ f ∷ []) fs w1 w' size widths im1 rest in
      (
        subst (λ t. IsImage sink crc identity t w') (append_assoc before (f ∷ []) fs) im2,
        (frame_of f hf valid, all),
      )

  -- The reader's view `c` of the writer `w`'s file.
  pub record IsReopened (identity : RecordingId) (partial : Bool) (dropped : ℕ) (fp : Fingerprint)
      (w : FramedWriter sink crc) (c : Container) : Type 0 where
    pub identity_same : c.identity ≡ identity
    pub sections : c.sections ≡ w.sections
    pub completion : c.completion ≡ (if partial then incomplete else complete)
    pub dropped_same : c.dropped ≡ dropped
    pub fingerprint : c.fingerprint ≡ some fp
    pub bytes : c.bytes ≡ sink.written w.output

  module _ (backend : Backend) (width : (bytes : List ℕ) → IsU32 (crc bytes)) where
    reopened-IsReopened :
        (identity : RecordingId) (fs : List Frame) (partial : Bool) (dropped : ℕ)
        (verify_crc : Bool) (fp : Fingerprint) (w : FramedWriter sink crc)
        → IsComplete sink crc identity fs partial dropped fp w
        → IsReopened identity partial dropped fp w (
            reopened backend crc width
              (image crc identity fs partial dropped)
              identity
              fs
              partial
              dropped
              verify_crc)
    reopened-IsReopened identity fs partial dropped verify_crc fp w done = record {
      identity_same = refl;
      sections = sym done.sections;
      completion = refl;
      dropped_same = refl;
      fingerprint = ap some (
          sym (
            fingerprint_ext fp
              (record {
                recording = identity;
                length = length (image crc identity fs partial dropped);
                directory_crc = crc (directory (sections_at header_bytes fs) dropped);
              })
              done.recording (done.total ∙ sym (length-image crc identity fs partial dropped))
              done.directory_crc));
      bytes = sym done.output;
    }

    -- A recording that was written and finished without an error is opened by `from_bytes`, whatever the
    -- output and the checksum: the container has the writer's identity, sections, dropped bytes and fingerprint.
    -- The arguments have the widths of their types, and no block number is used twice.
    pub from_bytes-record_file :
        (output : sink.Output) (identity : RecordingId) (fs : List Frame) (partial : Bool)
        (dropped : ℕ) (verify_crc : Bool) (fp : Fingerprint) (w : FramedWriter sink crc)
        → sink.written output ≡ []
        → length identity ≡ 16
        → AllWidths fs
        → HasFreshBlocks [] fs
        → IsU64 dropped
        → record_file output identity fs partial dropped ≡ ok (fp, w)
        → (c : Container) × (from_bytes backend crc (sink.written w.output) verify_crc ≡ ok c)
          × IsReopened identity partial dropped fp w c
    unfolding record_file from_bytes
    from_bytes-record_file output identity fs partial dropped verify_crc fp w empty size widths
          fresh drops h =
        let (w0, opened, h1) = >>=-eq-ok (with_identity sink crc output identity) _ h in
        let (w1, filled, closed) = >>=-eq-ok (write_frames fs w0) _ h1 in
        let (im0, nonzero) = with_identity-IsImage sink crc output identity w0 empty size opened in
        let (im1, all) = write_frames-IsImage identity [] fs w0 w1 size widths im0 filled in
        let done = finish-IsComplete sink crc identity fs partial dropped w1 fp w im1 closed in
        let fits : IsU64 (length (image crc identity fs partial dropped)) =
          subst IsU64 (sym (length-image crc identity fs partial dropped)) done.fits in
        (
          reopened backend crc width (image crc identity fs partial dropped) identity fs partial
              dropped verify_crc,
          rw done.output (
              parse-image backend crc width identity fs partial dropped verify_crc size fits all
                fresh drops done.dropped_none nonzero),
          reopened-IsReopened identity fs partial dropped verify_crc fp w done,
        )
