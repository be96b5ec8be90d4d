-- ===== src/Framing/Writer.antt =====
-- vtr-rs/src/framing.rs: `FramedWriter`. The output is a parameter: what implements `Write`, with the
-- bytes that have reached it. A failed write returns the error alone; a writer whose call failed is not
-- used again here.
pub mod Images
pub mod Endings
pub mod Total
use vtr.Prelude.{
  ℕ, ◌+◌, ◌^◌, ◌≡◌, Bool, true, false, not, ◌&&◌, Option, none, some, List, [], ◌∷◌, ◌++◌, length,
  bytes_eq, ◌==◌, if◌then◌else◌,
}
use vtr.Prelude.Bytes.{to_le, checked_add}
use vtr.Error.{Result, ok, err, invalid, state, ◌>>=◌, ◌>>◌}
use vtr.Framing.{
  RecordingId, zero_identity, Fingerprint, Section, invalid_kind, trailer_magic, header,
  section_header, header_bytes, section_bytes,
}

-- `write_all` either fails or appends its bytes; `flush` adds nothing.
pub record Sink : Type 1 where
  pub Output : Type 0
  pub write_all : List ℕ → Output → Result Output
  pub flush : Output → Result Output
  pub written : Output → List ℕ
  pub written-write_all :
      (bytes : List ℕ) (o o' : Output) → write_all bytes o ≡ ok o' → written o' ≡ written o ++ bytes
  pub written-flush : (o o' : Output) → flush o ≡ ok o' → written o' ≡ written o

-- `RecordingId::generate`: `random` is what the random source answered.
pub generate : Result (List ℕ) → Result RecordingId
generate random = do
  bytes ← random
  if bytes_eq bytes zero_identity
      then err (state "random source returned a zero identity")
      else ok bytes

unfoldable pub directory_entry : Section → List ℕ
directory_entry s =
    to_le 4 s.kind
    ++ (to_le 4 s.flags
        ++ (to_le 8 s.offset
            ++ (to_le 8 s.length
                ++ (to_le 8 s.aux0 ++ (to_le 8 s.aux1 ++ to_le 8 s.block_number)))))

unfoldable pub directory_entries : List Section → List ℕ
directory_entries [] = []
directory_entries (s ∷ ss) = directory_entry s ++ directory_entries ss

unfoldable pub directory : List Section → ℕ → List ℕ
directory sections dropped =
    to_le 8 (length sections) ++ (to_le 8 dropped ++ directory_entries sections)

module _ (sink : Sink) (crc : List ℕ → ℕ) where
  open sink use {Output, write_all, flush}

  pub record FramedWriter : Type 0 where
    pub output : Output
    pub identity : RecordingId
    pub position : ℕ
    pub sections : List Section
    pub finished : Bool

  unfoldable pub with_identity : Output → RecordingId → Result FramedWriter
  with_identity output identity =
      if bytes_eq identity zero_identity then err (invalid "zero recording identity") else do
        output' ← write_all (header identity) output
        ok (record {
          output = output';
          identity = identity;
          position = header_bytes;
          sections = [];
          finished = false;
        })

  -- `position.checked_add(24).and_then(|n| n.checked_add(len))`, and so in `finish`.
  abbrev pub advance : ℕ → ℕ → ℕ → Result ℕ
  advance position a b = elim (checked_add position a) [
    | none ↦ err (invalid "container length overflow")
    | some n ↦ elim (checked_add n b) [
      | none ↦ err (invalid "container length overflow")
      | some next ↦ ok next
    ]
  ]

  write_section : FramedWriter → Section → List ℕ → Result FramedWriter
  write_section w s payload = do
    next ← advance w.position section_bytes (length payload)
    o1 ← write_all (section_header s.kind s.flags (length payload) (crc payload)) w.output
    o2 ← write_all payload o1
    ok (record w { output = o2; sections = w.sections ++ s ∷ []; position = next })

  unfoldable pub section : ℕ → ℕ → List ℕ → ℕ → ℕ → ℕ → FramedWriter → Result FramedWriter
  unfolding write_section
  section kind flags payload aux0 aux1 block_number w =
      if w.finished
      then err (state "container is finalized")
      else if invalid_kind kind block_number
      then err (invalid "invalid section kind or block number")
      else write_section w
          (record {
            kind = kind;
            flags = flags;
            offset = w.position;
            length = length payload;
            aux0 = aux0;
            aux1 = aux1;
            block_number = block_number;
          })
          payload

  write_directory : FramedWriter → Bool → List ℕ → Result (Fingerprint × FramedWriter)
  write_directory w incomplete bytes = do
    total ← advance w.position (length bytes) 48
    o1 ←
        write_all (section_header 7 (if incomplete then 2 else 0) (length bytes) (crc bytes))
          w.output
    o2 ← write_all bytes o1
    o3 ← write_all (to_le 8 w.position) o2
    o4 ← write_all (to_le 8 total) o3
    o5 ← write_all trailer_magic o4
    o6 ← flush o5
    let w' = record w { output = o6; position = total; finished = true }
    ok (record { recording = w.identity; length = total; directory_crc = crc bytes }, w')

  unfoldable pub finish : Bool → ℕ → FramedWriter → Result (Fingerprint × FramedWriter)
  unfolding write_directory
  finish incomplete dropped w =
      if w.finished
      then err (state "container is finalized")
      else if not incomplete && not (dropped == 0)
      then err (invalid "complete output cannot report dropped bytes")
      else write_directory w incomplete (directory w.sections dropped)
