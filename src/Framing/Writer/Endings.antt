-- ===== src/Framing/Writer/Endings.antt =====
-- The file that `finish` leaves: the image of the frames that the writer holds.
use vtr.Prelude.{ℕ, ◌+◌, ◌≡◌, ap, ◌∙◌, Bool, true, false, List, ◌++◌, append_assoc, length, arith}
use mathlib.Core.Path.{ap₂, subst}
use vtr.Prelude.Bytes.{IsU64, to_le}
use vtr.Error.{Result, ok, >>=-eq-ok}
use vtr.Framing.{RecordingId, Fingerprint, section_header, trailer_magic, header_bytes}
use vtr.Framing.Writer.{Sink, FramedWriter, advance, write_directory, finish, directory}
use vtr.Framing.Image.{Frame, sections_at, body, ending, image, directory_flags}
use vtr.Framing.Writer.Images.{IsImage, advance_ok, write_two}

module _ (sink : Sink) (crc : List ℕ → ℕ) where
  -- What a successful `finish` leaves, over a writer `w` and the directory's bytes.
  record IsFinished (w : FramedWriter sink crc) (incomplete : Bool) (bytes : List ℕ)
      (fp : Fingerprint) (w' : FramedWriter sink crc) : Type 0 where
    pub output :
        sink.written w'.output ≡ sink.written w.output ++ ending crc incomplete w.position bytes
    pub recording : fp.recording ≡ w.identity
    pub total : fp.length ≡ w.position + length bytes + 48
    pub directory_crc : fp.directory_crc ≡ crc bytes
    pub fits : IsU64 (w.position + length bytes + 48)
    pub sections : w'.sections ≡ w.sections
    pub closed : w'.finished ≡ true

  module _ (w : FramedWriter sink crc) (incomplete : Bool) (bytes : List ℕ) (fp : Fingerprint)
      (w' : FramedWriter sink crc) (total : ℕ) (o1 o2 o3 o4 o5 o6 : sink.Output) where
    abbrev directory_header : List ℕ
    directory_header = section_header 7 (directory_flags crc incomplete) (length bytes) (crc bytes)

    six_writes :
        sink.write_all directory_header w.output ≡ ok o1
        → sink.write_all bytes o1 ≡ ok o2
        → sink.write_all (to_le 8 w.position) o2 ≡ ok o3
        → sink.write_all (to_le 8 total) o3 ≡ ok o4
        → sink.write_all trailer_magic o4 ≡ ok o5
        → sink.flush o5 ≡ ok o6
        → sink.written o6
          ≡ sink.written w.output
            ++ (directory_header
                ++ (bytes ++ (to_le 8 w.position ++ (to_le 8 total ++ trailer_magic))))
    six_writes p1 p2 p3 p4 p5 p6 =
        sink.written-flush o5 o6 p6
        ∙ sink.written-write_all trailer_magic o4 o5 p5
        ∙ ap (λ t. t ++ trailer_magic)
            (write_two sink crc (to_le 8 w.position) (to_le 8 total) p3 p4)
        ∙ ap (λ t. (t ++ (to_le 8 w.position ++ to_le 8 total)) ++ trailer_magic)
            (write_two sink crc directory_header bytes p1 p2)
        ∙ simp append_assoc

    finished_writer :
        (total ≡ w.position + length bytes + 48) × IsU64 total
        → sink.written o6
          ≡ sink.written w.output
            ++ (directory_header
                ++ (bytes ++ (to_le 8 w.position ++ (to_le 8 total ++ trailer_magic))))
        → ◌≡◌ {A = Result (Fingerprint × FramedWriter sink crc)}
            (ok (
              record { recording = w.identity; length = total; directory_crc = crc bytes },
              record w { output = o6; position = total; finished = true },
            ))
            (ok (fp, w'))
        → IsFinished w incomplete bytes fp w'
    finished_writer (sum, fits) writes made =
        let same_output : w'.output ≡ o6 = cc in
        record {
          output =
              ap sink.written same_output
              ∙ writes
              ∙ ap
                  (λ (t : ℕ).
                    sink.written w.output
                    ++ (directory_header
                        ++ (bytes ++ (to_le 8 w.position ++ (to_le 8 t ++ trailer_magic)))))
                  sum;
          recording = cc;
          total = (let same : fp.length ≡ total = cc in same ∙ sum);
          directory_crc = cc;
          fits = rw (← sum) fits;
          sections = cc;
          closed = cc;
        }

  write_directory-IsFinished :
      (w : FramedWriter sink crc) (incomplete : Bool) (bytes : List ℕ) (fp : Fingerprint)
      (w' : FramedWriter sink crc)
      → write_directory sink crc w incomplete bytes ≡ ok (fp, w')
      → IsFinished w incomplete bytes fp w'
  unfolding write_directory
  write_directory-IsFinished w incomplete bytes fp w' h =
      let (total, adv, h1) = >>=-eq-ok (advance sink crc w.position (length bytes) 48) _ h in
      let (o1, p1, h2) = >>=-eq-ok (sink.write_all _ w.output) _ h1 in
      let (o2, p2, h3) = >>=-eq-ok (sink.write_all bytes o1) _ h2 in
      let (o3, p3, h4) = >>=-eq-ok (sink.write_all (to_le 8 w.position) o2) _ h3 in
      let (o4, p4, h5) = >>=-eq-ok (sink.write_all (to_le 8 total) o3) _ h4 in
      let (o5, p5, h6) = >>=-eq-ok (sink.write_all trailer_magic o4) _ h5 in
      let (o6, p6, made) = >>=-eq-ok (sink.flush o5) _ h6 in
      finished_writer w incomplete bytes fp w' total o1 o2 o3 o4 o5 o6
        (advance_ok sink crc w.position (length bytes) 48 adv)
        (six_writes w incomplete bytes fp w' total o1 o2 o3 o4 o5 o6 p1 p2 p3 p4 p5 p6) made

  finish_guards :
      (incomplete : Bool) (dropped : ℕ) (w : FramedWriter sink crc) (fp : Fingerprint)
      (w' : FramedWriter sink crc)
      → finish sink crc incomplete dropped w ≡ ok (fp, w')
      → (incomplete ≡ false → dropped ≡ 0)
        × (write_directory sink crc w incomplete (directory w.sections dropped) ≡ ok (fp, w'))
  unfolding finish
  finish_guards incomplete dropped w fp w' h = (ground arith, ground arith)

  -- What a successful `finish` returns and leaves, over a writer that holds the frames `fs`.
  pub record IsComplete (identity : RecordingId) (fs : List Frame) (incomplete : Bool) (dropped : ℕ)
      (fp : Fingerprint) (w' : FramedWriter sink crc) : Type 0 where
    pub output : sink.written w'.output ≡ image crc identity fs incomplete dropped
    pub recording : fp.recording ≡ identity
    pub total :
        fp.length
        ≡ length (body crc identity fs)
          + length (directory (sections_at header_bytes fs) dropped)
          + 48
    pub directory_crc : fp.directory_crc ≡ crc (directory (sections_at header_bytes fs) dropped)
    pub fits : IsU64 (
        length (body crc identity fs)
        + length (directory (sections_at header_bytes fs) dropped)
        + 48)
    pub sections : w'.sections ≡ sections_at header_bytes fs
    pub closed : w'.finished ≡ true
    pub dropped_none : incomplete ≡ false → dropped ≡ 0

  -- `finish` completes the file of the frames: body, directory and trailer, with the fingerprint of that
  -- directory; it fails where complete output reports dropped bytes, and closes the writer.
  pub finish-IsComplete :
      (identity : RecordingId) (fs : List Frame) (incomplete : Bool) (dropped : ℕ)
      (w : FramedWriter sink crc) (fp : Fingerprint) (w' : FramedWriter sink crc)
      → IsImage sink crc identity fs w
      → finish sink crc incomplete dropped w ≡ ok (fp, w')
      → IsComplete identity fs incomplete dropped fp w'
  finish-IsComplete identity fs incomplete dropped w fp w' im h =
      let (guard, wrote) = finish_guards incomplete dropped w fp w' h in
      complete_of guard (
        write_directory-IsFinished w incomplete (directory (sections_at header_bytes fs) dropped) fp
          w'
          (subst (λ ss. write_directory sink crc w incomplete (directory ss dropped) ≡ ok (fp, w'))
            im.sections wrote))
    where
      complete_of :
          (incomplete ≡ false → dropped ≡ 0)
          → IsFinished w incomplete (directory (sections_at header_bytes fs) dropped) fp w'
          → IsComplete identity fs incomplete dropped fp w'
      complete_of guard done = record {
        output =
            done.output
            ∙ ap₂
                (λ x (y : ℕ).
                  x ++ ending crc incomplete y (directory (sections_at header_bytes fs) dropped))
                im.output im.position;
        recording = done.recording ∙ im.identity_same;
        total = rw (← im.position) done.total;
        directory_crc = done.directory_crc;
        fits = rw (← im.position) done.fits;
        sections = done.sections ∙ im.sections;
        closed = done.closed;
        dropped_none = guard;
      }
