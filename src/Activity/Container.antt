-- ===== src/Activity/Container.antt =====
-- vtr-rs/src/activity/container.rs: the framing of the sidecar file. The writer here is the one whose output is the list
-- of the bytes written and never fails; Output is the writer over any output. `crc32fast::hash` is the parameter `crc`.
-- The admission of memory, which can only end `parse` with the caller's error, is left out.
pub mod Image
pub mod Payloads
pub mod RoundTrip
pub mod Output
use vtr.Prelude.{
  ℕ, zero, suc, ◌+◌, ◌-◌, ◌*◌, ◌/◌, ◌%◌, Bool, not, ◌&&◌, ◌||◌, Option, none, some, List, [], ◌∷◌,
  ◌++◌, length, replicate, drop, ltb, leb, ◌==◌, bytes_eq, if◌then◌else◌, take,
}
use vtr.Prelude.Bytes.{to_le, from_le, checked_add}
use vtr.Error.{Result, ok, err, corrupt, checksum, unsupported_version, ◌>>=◌}
use vtr.Wire.Cursor
use vtr.Wire.Cursor.{Cursor}
use vtr.Activity.{magic, version}
use vtr.Activity.Format.{any_set}

-- `VTR_END\0`
abbrev pub end_magic : List ℕ
end_magic = b'V' ∷ b'T' ∷ b'R' ∷ b'_' ∷ b'E' ∷ b'N' ∷ b'D' ∷ 0 ∷ []

pub record Entry : Type 0 where
  pub kind : ℕ
  pub offset : ℕ
  pub len : ℕ
  pub aux0 : ℕ
  pub aux1 : ℕ

abbrev pub joined : List (List ℕ) → List ℕ
joined [] = []
joined (p ∷ ps) = p ++ joined ps

-- `pos.checked_add(SECTION).and_then(|v| v.checked_add(len)).filter(|&v| v <= limit)`
abbrev pub section_end : ℕ → ℕ → ℕ → Option ℕ
section_end pos len limit = elim (checked_add pos 24) [
  | none ↦ none
  | some v ↦ elim (checked_add v len) [
    | none ↦ none
    | some e ↦ if leb e limit then some e else none
  ]
]

read_entry : Cursor → Result (Entry × Cursor)
read_entry d = do
  (kind, d1) ← Cursor.u32 d
  (zeros, d2) ← Cursor.u32 d1
  if not (zeros == 0) then err (corrupt "activity directory reserved flags") else do
    (offset, d3) ← Cursor.u64 d2
    (len, d4) ← Cursor.u64 d3
    (aux0, d5) ← Cursor.u64 d4
    (aux1, d6) ← Cursor.u64 d5
    ok (record { kind = kind; offset = offset; len = len; aux0 = aux0; aux1 = aux1 }, d6)

next_offset : ℕ → ℕ → ℕ → Result ℕ
next_offset offset len limit = elim (section_end offset len limit) [
  | none ↦ err (corrupt "activity section exceeds directory")
  | some e ↦ ok e
]

-- The header's fields behind the magic.
file_header : Cursor → Result (Unit {0})
file_header d = do
  (major, d1) ← Cursor.fixed_le 2 d
  (minor, d2) ← Cursor.fixed_le 2 d1
  if not (major == version) || not (minor == 0)
      then err (unsupported_version "VTI" major minor version 0)
      else do
        (reserved, d3) ← Cursor.take 20 d2
        if any_set reserved then err (corrupt "activity file reserved flags") else ok tt

-- The offset of the directory, in a file of `size` bytes.
trailer_offset : ℕ → Cursor → Result ℕ
trailer_offset size d = do
  (directory_offset, d1) ← Cursor.u64 d
  (total, d2) ← Cursor.u64 d1
  if not (total == size) then err (corrupt "invalid activity trailer") else do
    (end, d3) ← Cursor.take 8 d2
    if not (bytes_eq end end_magic) || (ltb directory_offset 32 || leb (size - 24) directory_offset)
        then err (corrupt "invalid activity trailer")
        else ok directory_offset

module _ (crc : List ℕ → ℕ) where
  unfoldable pub header : ℕ → List ℕ → List ℕ
  header kind body =
      to_le 4 kind ++ (to_le 4 0 ++ (to_le 8 (length body) ++ (to_le 4 (crc body) ++ to_le 4 0)))

  -- `payload` behind the four tests of the section's header.
  checked_body : Entry → ℕ → Cursor → Result (List ℕ)
  checked_body entry hash d = do
    (body, d') ← Cursor.take entry.len d
    if not (crc body == hash) then err (checksum entry.offset) else ok body

  -- `||` stops at the first difference, so a read behind it is not made.
  unfoldable pub payload : List ℕ → Entry → Result (List ℕ)
  unfolding checked_body
  payload bytes entry =
      if ltb (length bytes) entry.offset then err (corrupt "activity offset outside file") else do
        (kind, d1) ← Cursor.u32 (drop entry.offset bytes)
        if not (kind == entry.kind)
            then err (corrupt "activity section disagrees with directory")
            else do
              (zeros, d2) ← Cursor.u32 d1
              if not (zeros == 0)
                  then err (corrupt "activity section disagrees with directory")
                  else do
                    (len, d3) ← Cursor.u64 d2
                    if not (len == entry.len)
                        then err (corrupt "activity section disagrees with directory")
                        else do
                          (hash, d4) ← Cursor.u32 d3
                          (flags, d5) ← Cursor.u32 d4
                          if not (flags == 0)
                              then err (corrupt "activity section reserved flags")
                              else checked_body entry hash d5

  -- `for _ in 0..count`, from the offset reached.
  pub read_entries : ℕ → List ℕ → ℕ → ℕ → Cursor → Result (List Entry × ℕ)
  unfolding read_entry next_offset
  read_entries zero bytes limit offset d = ok ([], offset)
  read_entries (suc n) bytes limit offset d = do
    (entry, d') ← read_entry d
    if not (entry.offset == offset)
        then err (corrupt "activity directory is not a section partition")
        else do
          offset' ← next_offset offset entry.len limit
          _ ← payload bytes entry
          (entries, last) ← read_entries n bytes limit offset' d'
          ok (entry ∷ entries, last)

  -- The directory's body.
  directory_entries : List ℕ → ℕ → Cursor → Result (List Entry)
  unfolding read_entries
  directory_entries bytes directory_offset body = do
    (count, d) ← Cursor.u64 body
    if not (count == Cursor.remaining d / 40) || not (Cursor.remaining d % 40 == 0)
        then err (corrupt "invalid activity directory count")
        else do
          (entries, last) ← read_entries count bytes directory_offset 32 d
          if not (last == directory_offset)
              then err (corrupt "activity directory leaves unindexed bytes")
              else ok entries

  -- The directory's section, which is all that stands between its offset and the trailer.
  directory_section : List ℕ → ℕ → Cursor → Result (List Entry)
  unfolding directory_entries
  directory_section bytes directory_offset raw = do
    (kind, d1) ← Cursor.u32 raw
    if not (kind == 7) then err (corrupt "invalid activity directory") else do
      (zeros, d2) ← Cursor.u32 d1
      if not (zeros == 0) then err (corrupt "invalid activity directory") else do
        (len, d3) ← Cursor.u64 d2
        (hash, d4) ← Cursor.u32 d3
        (flags, d5) ← Cursor.u32 d4
        if not (flags == 0) || not (len == Cursor.remaining d5)
            then err (corrupt "invalid activity directory bounds")
            else if not (crc d5 == hash)
            then err (checksum directory_offset)
            else directory_entries bytes directory_offset d5

  unfoldable pub parse : List ℕ → Result (List Entry)
  unfolding file_header trailer_offset directory_section
  parse bytes =
      if ltb (length bytes) (32 + 24 + 8 + 24) || not (bytes_eq (take 8 bytes) magic)
      then err (corrupt "invalid activity file header")
      else do
        _ ← file_header (take 24 (drop 8 bytes))
        directory_offset ← trailer_offset (length bytes) (drop (length bytes - 24) bytes)
        directory_section bytes directory_offset
            (take (length bytes - 24 - directory_offset) (drop directory_offset bytes))

-- The state of `FileWriter`.
pub record FileWriter : Type 0 where
  pub output : List ℕ
  pub position : ℕ
  pub directory : List Entry

unfoldable pub file_writer : FileWriter
file_writer = record {
  output = magic ++ (to_le 2 version ++ replicate 22 0);
  position = 32;
  directory = [];
}

pub entry_bytes : Entry → List ℕ
entry_bytes e =
    to_le 4 e.kind
    ++ (to_le 4 0 ++ (to_le 8 e.offset ++ (to_le 8 e.len ++ (to_le 8 e.aux0 ++ to_le 8 e.aux1))))

pub directory_rows : List Entry → List ℕ
unfolding entry_bytes
directory_rows [] = []
directory_rows (e ∷ es) = entry_bytes e ++ directory_rows es

unfoldable pub directory_bytes : List Entry → List ℕ
unfolding directory_rows
directory_bytes es = to_le 8 (length es) ++ directory_rows es

module _ (crc : List ℕ → ℕ) where
  -- The length of a section is taken not to reach 2^64, as a slice in memory does not.
  unfoldable pub section : FileWriter → ℕ → List (List ℕ) → ℕ → ℕ → FileWriter
  section w kind parts aux0 aux1 =
      let length = length (joined parts) in
      record {
        output =
            w.output
            ++ ((to_le 4 kind
                  ++ (to_le 4 0 ++ (to_le 8 length ++ (to_le 4 (crc (joined parts)) ++ to_le 4 0))))
                ++ joined parts);
        position = w.position + 24 + length;
        directory =
            w.directory
            ++ record { kind = kind; offset = w.position; len = length; aux0 = aux0; aux1 = aux1 }
              ∷ [];
      }

  -- The file, and its length.
  unfoldable pub finish : FileWriter → List ℕ × ℕ
  unfolding directory_bytes
  finish w =
      let directory = directory_bytes w.directory in
      let length = w.position + 24 + length directory + 24 in
      (
        w.output
            ++ (header crc 7 directory
                ++ (directory ++ (to_le 8 w.position ++ (to_le 8 length ++ end_magic)))),
        length,
      )
