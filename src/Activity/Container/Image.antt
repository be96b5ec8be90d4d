-- ===== src/Activity/Container/Image.antt =====
-- What the writer's calls make, in one piece: the sections in a row, and their entries.
use vtr.Prelude.{
  ℕ, suc, ◌+◌, ◌*◌, ◌≡◌, refl, sym, ap, ◌∙◌, List, [], ◌∷◌, ◌++◌, append-nil, append_assoc, length,
  length-append, arith,
}
use vtr.Prelude.Bytes.{IsU32, IsU64, to_le}
use vtr.Activity.Container.{Entry, FileWriter, joined, header, section, entry_bytes, directory_rows}

-- The arguments of one call of `section`.
pub record Frame : Type 0 where
  pub kind : ℕ
  pub parts : List (List ℕ)
  pub aux0 : ℕ
  pub aux1 : ℕ

-- The arguments have the widths of their types.
pub record IsFrame (f : Frame) : Type 0 where
  pub kind : IsU32 f.kind
  pub aux0 : IsU64 f.aux0
  pub aux1 : IsU64 f.aux1

abbrev pub AllFrames : List Frame → Type 0
AllFrames [] = Unit
AllFrames (f ∷ fs) = IsFrame f × AllFrames fs

abbrev pub body_of : Frame → List ℕ
body_of f = joined f.parts

abbrev pub entry_of : Frame → ℕ → Entry
entry_of f offset = record {
  kind = f.kind;
  offset = offset;
  len = length (body_of f);
  aux0 = f.aux0;
  aux1 = f.aux1;
}

abbrev pub entries_at : ℕ → List Frame → List Entry
entries_at offset [] = []
entries_at offset (f ∷ fs) = entry_of f offset ∷ entries_at (offset + 24 + length (body_of f)) fs

pub length-entries_at : (offset : ℕ) (fs : List Frame) → length (entries_at offset fs) ≡ length fs
length-entries_at offset [] = refl
length-entries_at offset (f ∷ fs) = ap suc (length-entries_at (offset + 24 + length (body_of f)) fs)

pub length-directory_rows : (es : List Entry) → length (directory_rows es) ≡ 40 * length es
unfolding directory_rows entry_bytes to_le
length-directory_rows [] = refl
length-directory_rows (e ∷ es) = omega (arith, length-directory_rows es)

module _ (crc : List ℕ → ℕ) where
  abbrev pub frames_bytes : List Frame → List ℕ
  frames_bytes [] = []
  frames_bytes (f ∷ fs) = header crc f.kind (body_of f) ++ (body_of f ++ frames_bytes fs)

  pub length-header : (kind : ℕ) (body : List ℕ) → length (header crc kind body) ≡ 24
  unfolding header to_le
  length-header kind body = refl

  pub length-frame :
      (f : Frame) (rest : List ℕ)
      → length (header crc f.kind (body_of f) ++ (body_of f ++ rest))
        ≡ 24 + length (body_of f) + length rest
  length-frame f rest = omega (
    arith,
    length-append (header crc f.kind (body_of f)) (body_of f ++ rest),
    length-header f.kind (body_of f),
    length-append (body_of f) rest,
  )

  abbrev pub write_all : List Frame → FileWriter → FileWriter
  write_all [] w = w
  write_all (f ∷ fs) w = write_all fs (section crc w f.kind f.parts f.aux0 f.aux1)

  abbrev written : FileWriter → List Frame → FileWriter
  written w fs = record {
    output = w.output ++ frames_bytes fs;
    position = w.position + length (frames_bytes fs);
    directory = w.directory ++ entries_at w.position fs;
  }

  section-written :
      (f : Frame) (w : FileWriter)
      → section crc w f.kind f.parts f.aux0 f.aux1 ≡ record {
        output = w.output ++ (header crc f.kind (body_of f) ++ body_of f);
        position = w.position + 24 + length (body_of f);
        directory = w.directory ++ entry_of f w.position ∷ [];
      }
  unfolding section header
  section-written f w = refl

  writer_fields :
      (o o' : List ℕ) (p p' : ℕ) (d d' : List Entry)
      → o ≡ o'
      → p ≡ p'
      → d ≡ d'
      → ◌≡◌ {A = FileWriter}
          (record { output = o; position = p; directory = d })
          (record { output = o'; position = p'; directory = d' })
  writer_fields o o' p p' d d' x y z = cc

  pub write_all_lem : (fs : List Frame) (w : FileWriter) → write_all fs w ≡ written w fs
  write_all_lem [] w =
      writer_fields _ _ _ _ _ _ (sym (append-nil w.output)) (omega arith)
        (sym (append-nil w.directory))
  write_all_lem (f ∷ fs) w =
      ap (write_all fs) (section-written f w)
      ∙ write_all_lem fs _
      ∙ writer_fields _ _ _ _ _ _ (simp append_assoc)
          (omega (arith, length-frame f (frames_bytes fs)))
          (append_assoc w.directory (entry_of f w.position ∷ []) _)
