-- ===== src/Tests/Framing.antt =====
-- A small recording of vtr-rs/src/framing.rs, written to memory and opened again.
use vtr.Prelude.{
  ℕ, ◌+◌, ◌%◌, ◌^◌, ◌≡◌, refl, sym, true, false, List, [], ◌∷◌, ◌++◌, length, replicate, bytes_eq,
  elem, arith,
}
use vtr.Prelude.Bytes.{IsU32, IsU64, to_le}
use vtr.Error.{Result, ok, err}
use vtr.Framing.{RecordingId, Fingerprint, header, section_header, invalid_kind}
use vtr.Framing.Writer.{
  Sink, FramedWriter, with_identity, section, finish, directory, directory_entries, directory_entry,
}
use vtr.Framing.Writer.Images.{IsImage, with_identity-IsImage, section-IsImage}
use vtr.Framing.Writer.Endings.{IsComplete, finish-IsComplete}
use vtr.Framing.Container.{Container, insert_block}
use vtr.Framing.Container.Reopen.{reopened}
use mathlib.Core.Path.{subst}
use vtr.Framing.Image.Sizes.{length-image}
use vtr.Framing.Image.{Frame, AllFrames, HasFreshBlocks, image, body}
use vtr.Framing.Parse.{parse, from_bytes}
use vtr.Framing.Parse.RoundTrip.{parse-image}
use vtr.Framing.Writer.Total.{IsReliable}
use vtr.Framing.Session.Total.{record_file_total}
use vtr.Framing.Session.{
  AllWidths, write_frames, record_file, write_frames-IsImage, IsReopened, from_bytes-record_file,
}
use vtr.Tests.Codec.{zeros}

pub same_ok : {A : Type 0} {a b : A} → ok a ≡ ok b → b ≡ a
same_ok h = cc

-- Output in memory.
abbrev pub memory : Sink
memory = record {
  Output = List ℕ;
  write_all = λ bytes o. ok (o ++ bytes);
  flush = λ o. ok o;
  written = λ o. o;
  written-write_all = λ bytes o o' h. same_ok h;
  written-flush = λ o o' h. same_ok h;
}

-- A sum in place of the CRC.
abbrev sum : List ℕ → ℕ
sum [] = 0
sum (b ∷ bs) = (b + sum bs) % 2 ^ 32

sum-IsU32 : (bytes : List ℕ) → IsU32 (sum bytes)
sum-IsU32 [] = omega arith
sum-IsU32 (b ∷ bs) = omega arith

abbrev identity : RecordingId
identity = replicate 16 7

-- Metadata, and a waveform block with number 1.
abbrev meta_frame : Frame
meta_frame = record {
  kind = 1;
  flags = 0;
  payload = 1 ∷ 2 ∷ 3 ∷ [];
  aux0 = 0;
  aux1 = 0;
  block_number = 0;
}

abbrev block_frame : Frame
block_frame = record {
  kind = 5;
  flags = 0;
  payload = 9 ∷ [];
  aux0 = 10;
  aux1 = 20;
  block_number = 1;
}

abbrev frames : List Frame
frames = meta_frame ∷ block_frame ∷ []

frames-AllWidths : AllWidths frames
frames-AllWidths = (
  record {
    kind = omega arith;
    flags = omega arith;
    aux0 = omega arith;
    aux1 = omega arith;
    block_number = omega arith;
  },
  (
    record {
      kind = omega arith;
      flags = omega arith;
      aux0 = omega arith;
      aux1 = omega arith;
      block_number = omega arith;
    },
    tt,
  ),
)

abbrev fallback : FramedWriter memory sum
fallback = record { output = []; identity = []; position = 0; sections = []; finished = false }

abbrev writer_of : Result (FramedWriter memory sum) → FramedWriter memory sum
writer_of (ok w) = w
writer_of (err e) = fallback

abbrev finished_of :
    Result (Fingerprint × FramedWriter memory sum) → Fingerprint × FramedWriter memory sum
finished_of (ok r) = r
finished_of (err e) = (record { recording = []; length = 0; directory_crc = 0 }, fallback)

abbrev opened : FramedWriter memory sum
opened = writer_of (with_identity memory sum [] identity)

abbrev with_meta : FramedWriter memory sum
with_meta = writer_of (section memory sum 1 0 (1 ∷ 2 ∷ 3 ∷ []) 0 0 0 opened)

abbrev filled : FramedWriter memory sum
filled = writer_of (write_frames memory sum frames opened)

-- Incomplete, with five bytes dropped.
abbrev closed : Fingerprint × FramedWriter memory sum
closed = finished_of (finish memory sum true 5 filled)

abbrev recorded : Fingerprint × FramedWriter memory sum
recorded = finished_of (record_file memory sum [] identity frames true 5)

opened_run : with_identity memory sum [] identity ≡ ok opened
unfolding bytes_eq with_identity
opened_run = refl

with_meta_run : section memory sum 1 0 (1 ∷ 2 ∷ 3 ∷ []) 0 0 0 opened ≡ ok with_meta
unfolding bytes_eq with_identity section
with_meta_run = refl

filled_run : write_frames memory sum frames opened ≡ ok filled
unfolding bytes_eq with_identity section write_frames
filled_run = refl

closed_run : finish memory sum true 5 filled ≡ ok (closed.0, closed.1)
unfolding bytes_eq with_identity section write_frames finish directory directory_entries
    directory_entry to_le
closed_run = refl

recorded_run : record_file memory sum [] identity frames true 5 ≡ ok (recorded.0, recorded.1)
unfolding bytes_eq with_identity section record_file finish directory directory_entries
    directory_entry to_le
recorded_run = refl

opened-IsImage : IsImage memory sum identity [] opened
opened-IsImage = (with_identity-IsImage memory sum [] identity opened refl refl opened_run).0

section-IsImage_example :
    IsImage memory sum identity (meta_frame ∷ []) with_meta
    × (invalid_kind 1 0 ≡ false)
    × IsU64 (length (body sum identity (meta_frame ∷ [])))
section-IsImage_example =
    section-IsImage memory sum identity [] opened meta_frame refl opened-IsImage with_meta_run

write_frames-IsImage_example : IsImage memory sum identity frames filled × AllFrames frames
write_frames-IsImage_example =
    write_frames-IsImage memory sum identity [] frames opened filled refl frames-AllWidths
      opened-IsImage filled_run

filled-IsImage : IsImage memory sum identity frames filled
filled-IsImage =
    (write_frames-IsImage memory sum identity [] frames opened filled refl frames-AllWidths
      opened-IsImage filled_run).0

finish-IsComplete_example : IsComplete memory sum identity frames true 5 closed.0 closed.1
finish-IsComplete_example =
    finish-IsComplete memory sum identity frames true 5 filled closed.0 closed.1 filled-IsImage
      closed_run

frames-AllFrames : AllFrames frames
frames-AllFrames =
    (write_frames-IsImage memory sum identity [] frames opened filled refl frames-AllWidths
      opened-IsImage filled_run).1

frames-HasFreshBlocks : HasFreshBlocks [] frames
unfolding elem insert_block
frames-HasFreshBlocks = (refl, (refl, tt))

frames-fit : IsU64 (length (image sum identity frames true 5))
frames-fit =
    subst IsU64 (sym (length-image sum identity frames true 5))
      (finish-IsComplete memory sum identity frames true 5 filled closed.0 closed.1 filled-IsImage
        closed_run).fits

parse-image_example :
    parse zeros sum (image sum identity frames true 5) false true
    ≡ ok (
        reopened zeros sum sum-IsU32
          (image sum identity frames true 5)
          identity
          frames
          true
          5
          false)
unfolding bytes_eq
parse-image_example =
    parse-image zeros sum sum-IsU32 identity frames true 5 false refl frames-fit frames-AllFrames
      frames-HasFreshBlocks (omega arith) (λ e. cc) refl

from_bytes-record_file_example :
    (c : Container) × (from_bytes zeros sum recorded.1.output false ≡ ok c)
    × IsReopened memory sum identity true 5 recorded.0 recorded.1 c
from_bytes-record_file_example =
    from_bytes-record_file memory sum zeros sum-IsU32 [] identity frames true 5 false recorded.0
      recorded.1 refl refl frames-AllWidths frames-HasFreshBlocks (omega arith) recorded_run

memory-IsReliable : IsReliable memory
memory-IsReliable = record { writes = λ bytes o. (o ++ bytes, refl); flushes = λ o. (o, refl) }

record_file_total_example :
    (r : Fingerprint × FramedWriter memory sum) × (record_file memory sum [] identity frames true 5
      ≡ ok r)
unfolding bytes_eq to_le header section_header directory directory_entries directory_entry
record_file_total_example =
    record_file_total memory sum memory-IsReliable [] identity frames true 5 refl refl refl
      (refl, (refl, tt)) (λ e. absurd (cc)) (omega arith)
