-- ===== src/Framing/Session/Total.antt =====
-- A recording whose arguments are valid is written to the end, over an output that never fails.
use vtr.Prelude.{
  ℕ, ◌+◌, ◌≤◌, ◌≡◌, refl, sym, ap, ◌∙◌, Bool, false, List, [], ◌∷◌, ◌++◌, append-nil, append_assoc,
  length, length-append, bytes_eq, arith,
}
use mathlib.Core.Path.{subst}
use vtr.Prelude.Bytes.{IsU64}
use vtr.Error.{ok, ◌>>=◌}
use vtr.Framing.{
  RecordingId, zero_identity, invalid_kind, Fingerprint, header, header_bytes, section_bytes,
}
use vtr.Framing.Writer.{Sink, FramedWriter, finish, directory}
use vtr.Framing.Writer.Images.{IsImage, with_identity-IsImage, section-IsImage}
use vtr.Framing.Writer.Total.{IsReliable, section_total, with_identity_total, finish_total}
use vtr.Framing.Image.{Frame, frames_bytes, body, sections_at}
use vtr.Framing.Image.Sizes.{length-frames_bytes, frames_bytes-append}
use vtr.Framing.Session.{write_frames, record_file}

abbrev pub AllValid : List Frame → Type 0
AllValid [] = Unit
AllValid (f ∷ fs) = (invalid_kind f.kind f.block_number ≡ false) × AllValid fs

module _ (sink : Sink) (crc : List ℕ → ℕ) (reliable : IsReliable sink) where
  room :
      (identity : RecordingId) (before fs : List Frame) (f : Frame)
      → length (body crc identity before) + section_bytes + length f.payload
        ≤ length (body crc identity (before ++ f ∷ fs))
  room identity before fs f = omega (
    arith,
    length-append (header identity) (frames_bytes crc before),
    length-append (header identity) (frames_bytes crc (before ++ f ∷ fs)),
    ap (λ t. length t) (frames_bytes-append crc before (f ∷ fs)),
    length-append (frames_bytes crc before) (frames_bytes crc (f ∷ fs)),
    length-frames_bytes crc f fs,
  )

  write_frames_total :
      (identity : RecordingId) (before fs : List Frame) (w : FramedWriter sink crc)
      → length identity ≡ 16
      → AllValid fs
      → IsImage sink crc identity before w
      → IsU64 (length (body crc identity (before ++ fs)))
      → (w' : FramedWriter sink crc) × ((write_frames sink crc fs w ≡ ok w')
          × IsImage sink crc identity (before ++ fs) w')
  unfolding write_frames
  write_frames_total identity before [] w size valid im fits =
      (w, (refl, subst (λ t. IsImage sink crc identity t w) (sym (append-nil before)) im))
  write_frames_total identity before (f ∷ fs) w size valid im fits =
      let (w1, one) =
        section_total sink crc reliable w f im.open_still valid.0
          (omega (arith, im.position, room identity before fs f, fits)) in
      let (im1, kind, rest) = section-IsImage sink crc identity before w f size im one in
      let (w', (run, done)) =
        write_frames_total identity (before ++ f ∷ []) fs w1 size valid.1 im1 (
          subst (λ t. IsU64 (length (body crc identity t))) (sym (append_assoc before (f ∷ []) fs))
            fits) in
      (
        w',
        (
          rw one run,
          subst (λ t. IsImage sink crc identity t w') (append_assoc before (f ∷ []) fs) done,
        ),
      )

  -- Over an output that never fails, a recording with an identity that is not zero, with frames of valid
  -- kinds, without dropped bytes where it is complete, and of a total length below 2^64, is written and
  -- finished without an error.
  pub record_file_total :
      (output : sink.Output) (identity : RecordingId) (fs : List Frame) (partial : Bool)
      (dropped : ℕ)
      → sink.written output ≡ []
      → length identity ≡ 16
      → bytes_eq identity zero_identity ≡ false
      → AllValid fs
      → (partial ≡ false → dropped ≡ 0)
      → IsU64 (
          length (body crc identity fs)
          + length (directory (sections_at header_bytes fs) dropped)
          + 48)
      → (r : Fingerprint × FramedWriter sink crc) × (record_file sink crc output identity fs partial
            dropped
          ≡ ok r)
  unfolding record_file
  record_file_total output identity fs partial dropped empty size nonzero valid none_dropped fits =
      let (w0, opened) = with_identity_total sink crc reliable output identity nonzero in
      let (im0, same) = with_identity-IsImage sink crc output identity w0 empty size opened in
      let (w1, (filled, im1)) =
        write_frames_total identity [] fs w0 size valid im0 (omega (arith, fits)) in
      let (r, closed) =
        finish_total sink crc reliable w1 partial dropped im1.open_still none_dropped (
          subst (λ t. IsU64 (w1.position + length (directory t dropped) + 48)) (sym im1.sections)
            (omega (arith, im1.position, fits))) in
      (
        r,
        ap (λ t. t >>= λ w. write_frames sink crc fs w >>= finish sink crc partial dropped) opened
            ∙ (ap (λ t. t >>= finish sink crc partial dropped) filled ∙ closed),
      )
