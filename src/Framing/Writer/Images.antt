-- ===== src/Framing/Writer/Images.antt =====
-- The writer produces images: an invariant of `FramedWriter`, which `section` keeps.
use vtr.Prelude.{
  ℕ, ◌+◌, ◌≡◌, sym, ap, ◌∙◌, Bool-cases, false, inl, inr, List, [], ◌∷◌, ◌++◌, append-nil,
  append_assoc, length, length-append, bytes_eq, arith,
}
use mathlib.Core.Path.{ap₂}
use vtr.Prelude.Bytes.{IsU64}
use vtr.Error.{ok, >>=-eq-ok}
use vtr.Framing.{RecordingId, zero_identity, invalid_kind, header, header_bytes, section_bytes}
use vtr.Framing.Writer.{Sink, FramedWriter, with_identity, advance, write_section, section}
use vtr.Framing.Image.{Frame, section_of, sections_at, frame_header, frames_bytes, body, image}
use vtr.Framing.Image.Sizes.{
  length-section_header, length-header, frames_bytes-append, sections_at-append,
}

module _ (sink : Sink) (crc : List ℕ → ℕ) where
  -- The writer holds the frames `fs` of recording `identity`: the output, the position and the table of
  -- sections agree with them.
  pub record IsImage (identity : RecordingId) (fs : List Frame) (w : FramedWriter sink crc)
      : Type 0 where
    pub identity_same : w.identity ≡ identity
    pub output : sink.written w.output ≡ body crc identity fs
    pub position : w.position ≡ length (body crc identity fs)
    pub sections : w.sections ≡ sections_at header_bytes fs
    pub open_still : w.finished ≡ false

  pub advance_ok :
      (position a b : ℕ) {next : ℕ}
      → advance sink crc position a b ≡ ok next
      → (next ≡ position + a + b) × IsU64 next
  advance_ok position a b h = (ground arith, ground arith)

  -- A new writer on an empty output holds no frames.
  pub with_identity-IsImage :
      (output : sink.Output) (identity : RecordingId) (w : FramedWriter sink crc)
      → sink.written output ≡ []
      → length identity ≡ 16
      → with_identity sink crc output identity ≡ ok w
      → IsImage identity [] w × (bytes_eq identity zero_identity ≡ false)
  unfolding with_identity
  with_identity-IsImage output identity w empty size h =
      elim (Bool-cases (bytes_eq identity zero_identity)) [
        | inl e ↦ absurd (ground arith)
        | inr e ↦
            let (o, wrote, made) =
              >>=-eq-ok (sink.write_all (header identity) output) _ (rw e at h) in
            (
              record {
                identity_same = cc;
                output =
                    (let same : w.output ≡ o = cc in
                      ap sink.written same
                      ∙ sink.written-write_all (header identity) output o wrote
                      ∙ ap (λ t. t ++ header identity) empty
                      ∙ sym (append-nil (header identity)));
                position =
                    (let same : w.position ≡ header_bytes = cc in
                      same
                      ∙ omega (
                        arith,
                        ap length (append-nil (header identity)),
                        length-header identity,
                        size,
                      ));
                sections = cc;
                open_still = cc;
              },
              e,
            )
      ]

  pub write_two :
      (a b : List ℕ) {o o1 o2 : sink.Output}
      → sink.write_all a o ≡ ok o1
      → sink.write_all b o1 ≡ ok o2
      → sink.written o2 ≡ sink.written o ++ (a ++ b)
  write_two a b {o} {o1} {o2} p q =
      sink.written-write_all b o1 o2 q
      ∙ ap (λ t. t ++ b) (sink.written-write_all a o o1 p)
      ∙ append_assoc (sink.written o) a b

  body-append :
      (identity : RecordingId) (fs : List Frame) (f : Frame)
      → body crc identity (fs ++ f ∷ []) ≡ body crc identity fs ++ (frame_header crc f ++ f.payload)
  body-append identity fs f = rw (frames_bytes-append crc fs (f ∷ []), append-nil, append_assoc)

  length-body-append :
      (identity : RecordingId) (fs : List Frame) (f : Frame)
      → length (body crc identity (fs ++ f ∷ []))
        ≡ length (body crc identity fs) + 24 + length f.payload
  length-body-append identity fs f =
      ap length (body-append identity fs f)
      ∙ length-append (body crc identity fs) (frame_header crc f ++ f.payload)
      ∙ omega (
        arith,
        length-append (frame_header crc f) f.payload,
        length-section_header f.kind f.flags (length f.payload) (crc f.payload),
      )

  length-body :
      (identity : RecordingId) (fs : List Frame)
      → length identity ≡ 16
      → length (body crc identity fs) ≡ header_bytes + length (frames_bytes crc fs)
  length-body identity fs size =
      length-append (header identity) (frames_bytes crc fs)
      ∙ omega (arith, length-header identity, size)

  write_section-IsImage :
      (identity : RecordingId) (fs : List Frame) (w : FramedWriter sink crc) (f : Frame)
      {w' : FramedWriter sink crc}
      → length identity ≡ 16
      → IsImage identity fs w
      → write_section sink crc w (section_of f w.position) f.payload ≡ ok w'
      → IsImage identity (fs ++ f ∷ []) w' × IsU64 (length (body crc identity (fs ++ f ∷ [])))
  unfolding write_section
  write_section-IsImage identity fs w f {w'} size im h =
      let (next, adv, h1) =
        >>=-eq-ok (advance sink crc w.position section_bytes (length f.payload)) _ h in
      let (o1, first, h2) = >>=-eq-ok (sink.write_all (frame_header crc f) w.output) _ h1 in
      let (o2, second, made) = >>=-eq-ok (sink.write_all f.payload o1) _ h2 in
      let (total, fits) = advance_ok w.position section_bytes (length f.payload) adv in
      let place : next ≡ length (body crc identity (fs ++ f ∷ [])) =
        omega (arith, total, im.position, length-body-append identity fs f) in
      let same_output : w'.output ≡ o2 = cc in
      let same_position : w'.position ≡ next = cc in
      let same_sections : w'.sections ≡ w.sections ++ section_of f w.position ∷ [] = cc in
      let same_finished : w'.finished ≡ w.finished = cc in
      let same_identity : w'.identity ≡ w.identity = cc in
      (
        record {
          identity_same = same_identity ∙ im.identity_same;
          output =
              ap sink.written same_output
              ∙ write_two (frame_header crc f) f.payload first second
              ∙ ap (λ t. t ++ (frame_header crc f ++ f.payload)) im.output
              ∙ sym (body-append identity fs f);
          position = same_position ∙ place;
          sections =
              same_sections
              ∙ ap₂ (λ x y. x ++ y) im.sections
                  (ap (λ (t : ℕ). section_of f t ∷ []) (im.position ∙ length-body identity fs size))
              ∙ sym (sections_at-append crc header_bytes fs (f ∷ []));
          open_still = same_finished ∙ im.open_still;
        },
        rw (← place) fits,
      )

  -- The two guards of `section`.
  section_guards :
      (w : FramedWriter sink crc) (f : Frame) {w' : FramedWriter sink crc}
      → section sink crc f.kind f.flags f.payload f.aux0 f.aux1 f.block_number w ≡ ok w'
      → (invalid_kind f.kind f.block_number ≡ false)
        × (write_section sink crc w (section_of f w.position) f.payload ≡ ok w')
  unfolding section
  section_guards w f h = (ground arith, ground arith)

  -- A successful `section` adds one frame, and nothing else changes; the kind was valid, and the position
  -- is still a `u64`.
  pub section-IsImage :
      (identity : RecordingId) (fs : List Frame) (w : FramedWriter sink crc) (f : Frame)
      {w' : FramedWriter sink crc}
      → length identity ≡ 16
      → IsImage identity fs w
      → section sink crc f.kind f.flags f.payload f.aux0 f.aux1 f.block_number w ≡ ok w'
      → IsImage identity (fs ++ f ∷ []) w'
        × (invalid_kind f.kind f.block_number ≡ false)
        × IsU64 (length (body crc identity (fs ++ f ∷ [])))
  section-IsImage identity fs w f size im h =
      let (valid, wrote) = section_guards w f h in
      let (image, fits) = write_section-IsImage identity fs w f size im wrote in
      (image, valid, fits)
