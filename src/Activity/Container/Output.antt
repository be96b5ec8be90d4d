-- ===== src/Activity/Container/Output.antt =====
-- vtr-rs/src/activity/container.rs: `FileWriter` over any output, whose calls fail where a write does.
pub mod Agree
use vtr.Prelude.{ℕ, ◌+◌, ◌%◌, ◌^◌, none, some, List, [], ◌∷◌, ◌++◌, length, replicate}
use vtr.Prelude.Bytes.{to_le, checked_add}
use vtr.Error.{Result, ok, err, invalid, ◌>>=◌}
use vtr.Framing.Writer.{Sink}
use vtr.Activity.{magic, version}
use vtr.Activity.Container.{Entry, end_magic, joined, header, directory_bytes}
use vtr.Activity.Container.Image.{Frame}

-- The sum of the parts' lengths, by `checked_add`.
unfoldable pub sum_lengths : ℕ → List (List ℕ) → Result ℕ
sum_lengths sum [] = ok sum
sum_lengths sum (p ∷ ps) = elim (checked_add sum (length p)) [
  | none ↦ err (invalid "activity section length overflow")
  | some n ↦ sum_lengths n ps
]

module _ (sink : Sink) (crc : List ℕ → ℕ) where
  pub record OutputWriter : Type 0 where
    pub output : sink.Output
    pub position : ℕ
    pub directory : List Entry

  -- `FileWriter::new`
  unfoldable pub new_writer : sink.Output → Result OutputWriter
  new_writer output = do
    o ← sink.write_all (magic ++ (to_le 2 version ++ replicate 22 0)) output
    ok (record { output = o; position = 32; directory = [] })

  unfoldable pub write_parts : List (List ℕ) → sink.Output → Result sink.Output
  write_parts [] o = ok o
  write_parts (p ∷ ps) o = do o' ← sink.write_all p o; write_parts ps o'

  -- `FileWriter::section`
  unfoldable pub write_section : OutputWriter → ℕ → List (List ℕ) → ℕ → ℕ → Result OutputWriter
  unfolding sum_lengths write_parts
  write_section w kind parts aux0 aux1 = do
    length ← sum_lengths 0 parts
    o ←
        sink.write_all
          (to_le 4 kind
            ++ (to_le 4 0 ++ (to_le 8 length ++ (to_le 4 (crc (joined parts)) ++ to_le 4 0))))
          w.output
    o' ← write_parts parts o
    ok (record {
      output = o';
      position = (w.position + 24 + length) % 2 ^ 64;
      directory =
          w.directory
          ++ record { kind = kind; offset = w.position; len = length; aux0 = aux0; aux1 = aux1 }
            ∷ [];
    })

  -- `FileWriter::finish`
  unfoldable pub finish_output : OutputWriter → Result (sink.Output × ℕ)
  unfolding directory_bytes
  finish_output w = do
    let directory = directory_bytes w.directory
    let total = (w.position + 24 + length directory + 24) % 2 ^ 64
    o1 ← sink.write_all (header crc 7 directory) w.output
    o2 ← sink.write_all directory o1
    o3 ← sink.write_all (to_le 8 w.position) o2
    o4 ← sink.write_all (to_le 8 total) o3
    o5 ← sink.write_all end_magic o4
    o6 ← sink.flush o5
    ok (o6, total)

  -- One call of `section` for each frame.
  abbrev pub write_sections : List Frame → OutputWriter → Result OutputWriter
  write_sections [] w = ok w
  write_sections (f ∷ fs) w = do
    w' ← write_section w f.kind f.parts f.aux0 f.aux1
    write_sections fs w'
