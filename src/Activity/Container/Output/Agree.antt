-- ===== src/Activity/Container/Output/Agree.antt =====
-- The writer over any output writes what the writer to a list of bytes does.
use vtr.Prelude.{
  ℕ, ◌+◌, ◌%◌, ◌^◌, ◌≤◌, ◌≡◌, refl, sym, ap, ◌∙◌, List, [], ◌∷◌, ◌++◌, append-nil, append_assoc,
  length, length-append, replicate, arith,
}
use native.Mathlib.Nat.{mod-eq_of_lt}
use mathlib.Core.Path.{ap₂, subst}
use vtr.Prelude.Bytes.{IsU64, to_le}
use vtr.Error.{ok, >>=-eq-ok, ok_injective}
use vtr.Framing.Writer.{Sink}
use vtr.Activity.{magic, version}
use vtr.Activity.Container.{
  Entry, end_magic, joined, header, directory_bytes, FileWriter, file_writer, section, finish,
}
use vtr.Activity.Container.Image.{Frame, write_all, write_all_lem}
use vtr.Activity.Container.Output.{
  sum_lengths, OutputWriter, new_writer, write_parts, write_section, finish_output, write_sections,
}

wrapped : (a b : ℕ) → a ≡ b → IsU64 b → a % 2 ^ 64 ≡ b
wrapped a b e wide = rw e (mod-eq_of_lt wide)

module _ (sink : Sink) (crc : List ℕ → ℕ) where
  -- The two writers have written the same.
  record Agrees (w : OutputWriter sink crc) (v : FileWriter) : Type 0 where
    bytes : sink.written w.output ≡ v.output
    position : w.position ≡ v.position
    directory : w.directory ≡ v.directory

  sum_lengths-joined :
      (sum n : ℕ) (parts : List (List ℕ))
      → sum_lengths sum parts ≡ ok n
      → n ≡ sum + length (joined parts)
  unfolding sum_lengths
  sum_lengths-joined sum n [] h = let same : sum ≡ n = cc in omega (arith, same)
  sum_lengths-joined sum n (p ∷ ps) h =
      let more = sum_lengths-joined (sum + length p) n ps (ground (arith, h)) in
      omega (arith, more, length-append p (joined ps))

  write_parts-joined :
      (parts : List (List ℕ)) (o o' : sink.Output)
      → write_parts sink crc parts o ≡ ok o'
      → sink.written o' ≡ sink.written o ++ joined parts
  unfolding write_parts
  write_parts-joined [] o o' h = ap sink.written (sym (ok_injective h)) ∙ sym (append-nil _)
  write_parts-joined (p ∷ ps) o o' h =
      let (o1, wrote, more) = >>=-eq-ok (sink.write_all p o) _ h in
      write_parts-joined ps o1 o' more
      ∙ ap (λ t. t ++ joined ps) (sink.written-write_all p o o1 wrote)
      ∙ append_assoc (sink.written o) p (joined ps)

  new_writer-Agrees :
      (output : sink.Output) (w : OutputWriter sink crc)
      → sink.written output ≡ []
      → new_writer sink crc output ≡ ok w
      → Agrees w file_writer
  unfolding new_writer file_writer
  new_writer-Agrees output w empty h =
      let head = magic ++ (to_le 2 version ++ replicate 22 0) in
      let (o, wrote, made) = >>=-eq-ok (sink.write_all head output) _ h in
      subst (λ w. Agrees w file_writer) (ok_injective made)
        (record {
          bytes = sink.written-write_all head output o wrote ∙ ap (λ t. t ++ head) empty;
          position = refl;
          directory = refl;
        })

  -- The header of a section of so many bytes.
  abbrev head_of : Frame → ℕ → List ℕ
  head_of f n =
      to_le 4 f.kind ++ (to_le 4 0 ++ (to_le 8 n ++ (to_le 4 (crc (joined f.parts)) ++ to_le 4 0)))

  abbrev row_of : Frame → ℕ → ℕ → Entry
  row_of f position n = record {
    kind = f.kind;
    offset = position;
    len = n;
    aux0 = f.aux0;
    aux1 = f.aux1;
  }

  section_bytes :
      (f : Frame) (n : ℕ) (o o1 o2 : sink.Output) (out : List ℕ)
      → sink.written o ≡ out
      → n ≡ length (joined f.parts)
      → sink.write_all (head_of f n) o ≡ ok o1
      → write_parts sink crc f.parts o1 ≡ ok o2
      → sink.written o2 ≡ out ++ (head_of f (length (joined f.parts)) ++ joined f.parts)
  section_bytes f n o o1 o2 out same len first second =
      write_parts-joined f.parts o1 o2 second
      ∙ ap (λ t. t ++ joined f.parts) (sink.written-write_all (head_of f n) o o1 first)
      ∙ ap₂ (λ a m. (a ++ head_of f m) ++ joined f.parts) same len
      ∙ append_assoc out (head_of f (length (joined f.parts))) (joined f.parts)

  write_section-Agrees :
      (f : Frame) (w w' : OutputWriter sink crc) (v : FileWriter)
      → Agrees w v
      → IsU64 (v.position + 24 + length (joined f.parts))
      → write_section sink crc w f.kind f.parts f.aux0 f.aux1 ≡ ok w'
      → Agrees w' (section crc v f.kind f.parts f.aux0 f.aux1)
  unfolding write_section section
  write_section-Agrees f w w' v same wide h =
      let (n, summed, h1) = >>=-eq-ok (sum_lengths 0 f.parts) _ h in
      let (o1, first, h2) = >>=-eq-ok (sink.write_all (head_of f n) w.output) _ h1 in
      let (o2, second, made) = >>=-eq-ok (write_parts sink crc f.parts o1) _ h2 in
      let len : n ≡ length (joined f.parts) =
        omega (arith, sum_lengths-joined 0 n f.parts summed) in
      subst (λ w. Agrees w (section crc v f.kind f.parts f.aux0 f.aux1)) (ok_injective made)
        (record {
          bytes = section_bytes f n w.output o1 o2 v.output same.bytes len first second;
          position =
              wrapped (w.position + 24 + n) (v.position + 24 + length (joined f.parts))
                (omega (arith, same.position, len)) wide;
          directory = ap₂ (λ d r. d ++ r ∷ []) same.directory (ap₂ (row_of f) same.position len);
        })

  position_grows : (fs : List Frame) (v : FileWriter) → v.position ≤ (write_all crc fs v).position
  position_grows fs v = rw (write_all_lem crc fs v) (omega arith)

  write_sections-Agrees :
      (fs : List Frame) (w w' : OutputWriter sink crc) (v : FileWriter)
      → Agrees w v
      → IsU64 (write_all crc fs v).position
      → write_sections sink crc fs w ≡ ok w'
      → Agrees w' (write_all crc fs v)
  write_sections-Agrees [] w w' v same wide h = subst (λ w. Agrees w v) (ok_injective h) same
  write_sections-Agrees (f ∷ fs) w w' v same wide h =
      let (w1, one, more) = >>=-eq-ok (write_section sink crc w f.kind f.parts f.aux0 f.aux1) _ h in
      let next = section crc v f.kind f.parts f.aux0 f.aux1 in
      let grows : v.position + 24 + length (joined f.parts) ≤ (write_all crc fs next).position =
        unfold section in position_grows fs next in
      write_sections-Agrees fs w1 w' next
        (write_section-Agrees f w w1 v same (omega (arith, grows, wide)) one) wide more

  -- One more write behind what is written.
  then_write :
      (bytes before : List ℕ) (o o' : sink.Output)
      → sink.written o ≡ before
      → sink.write_all bytes o ≡ ok o'
      → sink.written o' ≡ before ++ bytes
  then_write bytes before o o' h wrote =
      sink.written-write_all bytes o o' wrote ∙ ap (λ t. t ++ bytes) h

  regroup :
      (a b c d e f : List ℕ)
      → ((((a ++ b) ++ c) ++ d) ++ e) ++ f ≡ a ++ (b ++ (c ++ (d ++ (e ++ f))))
  regroup a b c d e f = simp append_assoc

  abbrev size_of : FileWriter → ℕ
  size_of v = v.position + 24 + length (directory_bytes v.directory) + 24

  finish_output-Agrees :
      (w : OutputWriter sink crc) (v : FileWriter) (o : sink.Output) (total : ℕ)
      → Agrees w v
      → IsU64 (size_of v)
      → finish_output sink crc w ≡ ok (o, total)
      → (sink.written o, total) ≡ finish crc v
  unfolding finish_output finish
  finish_output-Agrees w v o total same wide h =
      let directory = directory_bytes w.directory in
      let size = (w.position + 24 + length directory + 24) % 2 ^ 64 in
      let (o1, p1, h1) = >>=-eq-ok (sink.write_all (header crc 7 directory) w.output) _ h in
      let (o2, p2, h2) = >>=-eq-ok (sink.write_all directory o1) _ h1 in
      let (o3, p3, h3) = >>=-eq-ok (sink.write_all (to_le 8 w.position) o2) _ h2 in
      let (o4, p4, h4) = >>=-eq-ok (sink.write_all (to_le 8 size) o3) _ h3 in
      let (o5, p5, h5) = >>=-eq-ok (sink.write_all end_magic o4) _ h4 in
      let (o6, p6, h6) = >>=-eq-ok (sink.flush o5) _ h5 in
      let w1 = then_write (header crc 7 directory) v.output w.output o1 same.bytes p1 in
      let w2 = then_write directory _ o1 o2 w1 p2 in
      let w3 = then_write (to_le 8 w.position) _ o2 o3 w2 p3 in
      let w4 = then_write (to_le 8 size) _ o3 o4 w3 p4 in
      let w5 = then_write end_magic _ o4 o5 w4 p5 in
      let rows : directory ≡ directory_bytes v.directory = ap directory_bytes same.directory in
      let whole : size ≡ size_of v =
        wrapped (w.position + 24 + length directory + 24) (size_of v)
          (omega (arith, same.position, ap (λ t. length t) rows)) wide in
      ap (λ r. (sink.written r.0, r.1)) (sym (ok_injective h6))
      ∙ ap₂ (λ b n. (b, n))
          (sink.written-flush o5 o6 p6
            ∙ w5
            ∙ regroup v.output (header crc 7 directory) directory (to_le 8 w.position)
                (to_le 8 size) end_magic
            ∙ ap₂ (λ d x. v.output ++ (header crc 7 d ++ (d ++ x))) rows
                (ap₂ (λ n m. to_le 8 n ++ (to_le 8 m ++ end_magic)) same.position whole))
          whole

  -- Over any output that was empty, where the writer, its sections and `finish` all succeed, what was written is
  -- the file of the writer to a list of bytes, and `finish` returns the same length, if that is below 2^64.
  pub finish_output-finish :
      (fs : List Frame) (output o : sink.Output) (w0 w : OutputWriter sink crc) (total : ℕ)
      → sink.written output ≡ []
      → new_writer sink crc output ≡ ok w0
      → write_sections sink crc fs w0 ≡ ok w
      → finish_output sink crc w ≡ ok (o, total)
      → IsU64 (finish crc (write_all crc fs file_writer)).1
      → (sink.written o, total) ≡ finish crc (write_all crc fs file_writer)
  unfolding finish
  finish_output-finish fs output o w0 w total empty made wrote h wide =
      let v = write_all crc fs file_writer in
      let same =
        write_sections-Agrees fs w0 w file_writer (new_writer-Agrees output w0 empty made)
          (omega (arith, wide)) wrote in
      finish_output-Agrees w v o total same wide h
