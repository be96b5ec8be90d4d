-- ===== src/Activity/Index/Decoded.antt =====
-- Every index that is decoded has a list for each signal, and in each the stretches are in order and apart.
use vtr.Prelude.{
  ℕ, zero, suc, ◌+◌, ◌≤◌, ◌≡◌, refl, sym, ap, ◌∙◌, Option, none, List, [], ◌∷◌, ◌++◌, length, drop,
  replicate, length-replicate, All,
}
use vtr.Error.{ok, >>=-eq-ok, guard_ok, ok_injective}
use mathlib.Core.Path.{subst}
use vtr.Codec.{Backend}
use vtr.Activity.{Identity}
use vtr.Activity.Scan.{last}
use vtr.Activity.Container.{Entry, parse, payload}
use vtr.Activity.Format.{Header, decode_header, decode_block_head, tail_rows}
use vtr.Activity.Index.{Stretch, Index, Slot, block_part, tail_part, section_rows}
use vtr.Activity.Index.Decode.{
  Tables, split_generators, wave_sections, block_of, columns_of, section_columns, block_section,
  tail_section, block_sections, generator_sections, wave_tables, lists_of, decode,
}
use vtr.Activity.Index.Ordered.{Fits, IsSlot, IsFit, block_rows-IsSlot, tail_rows-IsFit}

-- Each stretch starts at `low` or later, is not reversed, and the next one starts at least two later.
abbrev pub IsApart : ℕ → List Stretch → Type 0
IsApart low [] = Unit
IsApart low (x ∷ xs) = (low ≤ x.start) × (x.start ≤ x.end) × IsApart (x.end + 2) xs

Fits-IsApart :
    (low : ℕ) (list : List Stretch) (start : Option ℕ) → Fits low list start → IsApart low list
Fits-IsApart low [] start h = tt
Fits-IsApart low (x ∷ xs) start h = (h.0, h.1, Fits-IsApart (x.end + 2) xs start h.2)

All-replicate : {A : Type 0} (P : A → Type 0) (n : ℕ) (a : A) → P a → All P (replicate n a)
All-replicate P zero a h = tt
All-replicate P (suc n) a h = (h, All-replicate P n a h)

All-weaken :
    {A : Type 0} (P Q : A → Type 0) (xs : List A) → ((x : A) → P x → Q x) → All P xs → All Q xs
All-weaken P Q [] f h = tt
All-weaken P Q (x ∷ xs) f h = (f x h.0, All-weaken P Q xs f h.1)

lists-IsApart :
    (t_min : ℕ) (slots : List Slot)
    → All (IsFit t_min) slots
    → All (IsApart (t_min + 1)) (lists_of slots)
lists-IsApart t_min [] h = tt
lists-IsApart t_min (s ∷ ss) h =
    (Fits-IsApart (t_min + 1) s.list s.start h.0, lists-IsApart t_min ss h.1)

length-lists : (slots : List Slot) → length (lists_of slots) ≡ length slots
length-lists [] = refl
length-lists (s ∷ ss) = ap suc (length-lists ss)

module _ (backend : Backend) (crc : List ℕ → ℕ) where
  -- The tables between two sections of an index with the header.
  record IsTables (header : Header) (t : Tables) : Type 0 where
    slots : All (IsSlot header.t_min) t.slots
    count : length t.slots ≡ header.signals

  block_section-IsTables :
      (header : Header) (entry : Entry) (body : List ℕ) (t t' : Tables)
      → IsTables header t
      → block_section backend crc header entry body t ≡ ok t'
      → IsTables header t'
  unfolding block_section
  block_section-IsTables header entry body t t' is h =
      let (head, h1, k1) = >>=-eq-ok (decode_block_head body) _ h in
      let (bounds, k2) = guard_ok _ _ _ k1 in
      let (columns, h3, k3) = >>=-eq-ok (section_columns backend crc 6 (drop 40 body)) _ k2 in
      let (fit, k4) = guard_ok _ _ _ k3 in
      let (slots, h5, k5) =
        >>=-eq-ok
          (section_rows head.rows header.t_min head.closed (block_part (block_of head)) t.slots
            (columns_of columns))
          _ k4 in
      let kept =
        block_rows-IsSlot head.rows header.t_min head.closed (block_of head) t.slots
          (columns_of columns) slots is.slots h5 in
      let made : IsTables header
          (record { blocks = t.blocks ++ block_of head ∷ []; slots = slots }) =
        record { slots = kept.0; count = kept.1 ∙ is.count } in
      subst (IsTables header) (ok_injective k5) made

  block_sections-IsTables :
      (bytes : List ℕ) (header : Header) (entries : List Entry) (t t' : Tables)
      → IsTables header t
      → block_sections backend crc bytes header entries t ≡ ok t'
      → IsTables header t'
  unfolding block_sections
  block_sections-IsTables bytes header [] t t' is h = subst (IsTables header) (ok_injective h) is
  block_sections-IsTables bytes header (entry ∷ entries) t t' is h =
      let (body, h1, k1) = >>=-eq-ok (payload crc bytes entry) _ h in
      let (t1, h2, k2) = >>=-eq-ok (block_section backend crc header entry body t) _ k1 in
      block_sections-IsTables bytes header entries t1 t'
        (block_section-IsTables header entry body t t1 is h2) k2

  tail_section-IsFit :
      (header : Header) (body : List ℕ) (t t' : Tables)
      → IsTables header t
      → tail_section backend crc header body t ≡ ok t'
      → All (IsFit header.t_min) t'.slots × (length t'.slots ≡ header.signals)
  unfolding tail_section
  tail_section-IsFit header body t t' is h =
      let (rows, h1, k1) = >>=-eq-ok (tail_rows body) _ h in
      let (columns, h2, k2) = >>=-eq-ok (section_columns backend crc 3 (drop 8 body)) _ k1 in
      let (fit, k3) = guard_ok _ _ _ k2 in
      let (slots, h4, k4) =
        >>=-eq-ok
          (section_rows rows header.t_min 0 (tail_part (last t.blocks)) t.slots
            (columns_of columns))
          _ k3 in
      let fits =
        All-weaken (IsSlot header.t_min) (IsFit header.t_min) t.slots (λ s is_slot. is_slot.fits)
          is.slots in
      let kept =
        tail_rows-IsFit rows header.t_min 0 (last t.blocks) t.slots (columns_of columns) slots fits
          h4 in
      let same : slots ≡ t'.slots = ap (λ (x : Tables). x.slots) (ok_injective k4) in
      (subst (All (IsFit header.t_min)) same kept.0, ap length (sym same) ∙ kept.1 ∙ is.count)

  wave_tables-IsFit :
      (bytes : List ℕ) (header : Header) (rest : List Entry) (tail : Entry) (t : Tables)
      → wave_tables backend crc bytes header rest tail ≡ ok t
      → All (IsFit header.t_min) t.slots × (length t.slots ≡ header.signals)
  unfolding wave_tables
  wave_tables-IsFit bytes header rest tail t h =
      let start = replicate header.signals (record { list = []; start = none }) in
      let (t1, h1, k1) =
        >>=-eq-ok
          (block_sections backend crc bytes header rest (record { blocks = []; slots = start })) _
          h in
      let (body, h2, k2) = >>=-eq-ok (payload crc bytes tail) _ k1 in
      let (t2, h3, k3) = >>=-eq-ok (tail_section backend crc header body t1) _ k2 in
      let (closed, k4) = guard_ok _ _ _ k3 in
      let empty : IsSlot header.t_min (record { list = []; start = none }) = record {
        fits = tt;
        fresh = λ e. refl;
      } in
      let first : IsTables header (record { blocks = []; slots = start }) = record {
        slots =
            All-replicate (IsSlot header.t_min) header.signals (record { list = []; start = none })
              empty;
        count = length-replicate header.signals (record { list = []; start = none });
      } in
      let blocks =
        block_sections-IsTables bytes header rest (record { blocks = []; slots = start }) t1 first
          h1 in
      let fit = tail_section-IsFit header body t1 t2 blocks h3 in
      subst (λ (x : Tables). All (IsFit header.t_min) x.slots × (length x.slots ≡ header.signals))
        (ok_injective k4) fit

  -- What holds of an index that is decoded.
  pub record IsIndex (index : Index) : Type 0 where
    pub apart : All (IsApart (index.header.t_min + 1)) index.signals
    pub count : length index.signals ≡ index.header.signals

  pub decode-IsIndex :
      (bytes : List ℕ) (identity : Identity) (index : Index)
      → decode backend crc bytes identity ≡ ok index
      → IsIndex index
  unfolding decode
  decode-IsIndex bytes identity index h =
      let (entries, h1, k1) = >>=-eq-ok (parse crc bytes) _ h in
      let ((first, (rest, tail)), h2, k2) =
        >>=-eq-ok (wave_sections (split_generators entries).0) _ k1 in
      let (order, k3) = guard_ok _ _ _ k2 in
      let (head, h4, k4) = >>=-eq-ok (payload crc bytes first) _ k3 in
      let (header, h5, k5) = >>=-eq-ok (decode_header head) _ k4 in
      let (mine, k6) = guard_ok _ _ _ k5 in
      let (t, h7, k7) = >>=-eq-ok (wave_tables backend crc bytes header rest tail) _ k6 in
      let (generators, h8, k8) =
        >>=-eq-ok (generator_sections backend crc bytes (split_generators entries).1 []) _ k7 in
      let fit = wave_tables-IsFit bytes header rest tail t h7 in
      let made : IsIndex (record {
        header = header;
        blocks = t.blocks;
        signals = lists_of t.slots;
        generators = generators;
      }) =
        record {
          apart = lists-IsApart header.t_min t.slots fit.0;
          count = length-lists t.slots ∙ fit.1;
        } in
      subst IsIndex (ok_injective k8) made
