-- ===== src/Schema/Payload/Lawful.antt =====
-- What a binding promises: canonical bytes, which `decode` takes back to the value within a budget.
use vtr.Prelude.{
  ℕ, String, ◌+◌, ◌-◌, ◌*◌, ◌^◌, ◌≤◌, ◌<◌, ◌≡◌, refl, sym, ap, ◌∙◌, max, Bool, true, false, List,
  [], ◌∷◌, ◌++◌, append-nil, append_assoc, length, if◌then◌else◌, le→ltb, lt→leb, lt→ltb, arith,
}
use vtr.Prelude.Bytes.{to_le, length-to_le, from_le-to_le}
use vtr.Error.{ok}
use vtr.Wire.Cursor
use vtr.Wire.Cursor.Laws.{take-front}
use vtr.Schema.Payload.{
  payload_reader, take, spend, Payload, integer, boolean, put_size, encode_text, decode_text,
  string, encode_slice, encode_sequence, decode_items, spend_items, decode_sequence, vector,
  fixed_or_zero, capture, decode,
}

-- A binding's values with their bytes, and what decoding them costs of the budget.
pub record Lawful {A : Type 0} (T : Payload A) : Type 1 where
  pub Valid : A → Type 0
  pub bytes : A → List ℕ
  pub cost : A → ℕ
  pub encodes : (a : A) (out : List ℕ) → Valid a → T.encode a out ≡ ok (out ++ bytes a)
  pub decodes :
      (a : A) (rest : List ℕ) (budget : ℕ)
      → Valid a
      → cost a ≤ budget
      → T.decode (payload_reader (bytes a ++ rest) budget)
        ≡ ok (a, payload_reader rest (budget - cost a))

take_bytes :
    (n : ℕ) (front rest : List ℕ) (budget : ℕ)
    → n ≡ length front
    → take n (payload_reader (front ++ rest) budget) ≡ ok (front, payload_reader rest budget)
unfolding take payload_reader
take_bytes n front rest budget e = rw (take-front n front rest e)

spend_budget :
    (n : ℕ) (rest : List ℕ) (budget : ℕ)
    → n ≤ budget
    → spend n (payload_reader rest budget) ≡ ok (payload_reader rest (budget - n))
unfolding spend payload_reader
spend_budget n rest budget h = rw (le→ltb budget n h)

pub minus_zero : (n : ℕ) → n - 0 ≡ n
minus_zero n = omega arith

pub decode_integer :
    (size v : ℕ) (rest : List ℕ) (budget : ℕ)
    → v < 256 ^ size
    → (integer size).decode (payload_reader (to_le size v ++ rest) budget)
      ≡ ok (v, payload_reader rest budget)
unfolding integer
decode_integer size v rest budget h =
    rw (
      take_bytes size (to_le size v) rest budget (sym (length-to_le size v)),
      from_le-to_le size v h,
    )

unfoldable pub integer-Lawful : (size : ℕ) → Lawful (integer size)
unfolding integer
integer-Lawful size = record {
  Valid = λ v. v < 256 ^ size;
  bytes = to_le size;
  cost = λ v. 0;
  encodes = λ v out h. refl;
  decodes = λ v rest budget h le.
      decode_integer size v rest budget h
      ∙ ap (λ n. ok (v, payload_reader rest n)) (sym (minus_zero budget));
}

abbrev pub byte_of : Bool → ℕ
byte_of b = if b then 1 else 0

pub decode_boolean :
    (b : Bool) (rest : List ℕ) (budget : ℕ)
    → boolean.decode (payload_reader ((byte_of b ∷ []) ++ rest) budget)
      ≡ ok (b, payload_reader rest budget)
unfolding boolean
decode_boolean true rest budget = rw (take_bytes 1 (1 ∷ []) rest budget refl)
decode_boolean false rest budget = rw (take_bytes 1 (0 ∷ []) rest budget refl)

unfoldable pub boolean-Lawful : Lawful boolean
unfolding boolean
boolean-Lawful = record {
  Valid = λ b. Unit;
  bytes = λ b. byte_of b ∷ [];
  cost = λ b. 0;
  encodes = λ b out h. refl;
  decodes = λ b rest budget h le.
      decode_boolean b rest budget
      ∙ ap (λ n. ok (b, payload_reader rest n)) (sym (minus_zero budget));
}

put_size_lem :
    (message : String) (n : ℕ) (out : List ℕ)
    → n < 2 ^ 32
    → put_size message n out ≡ ok (out ++ to_le 4 n)
unfolding put_size
put_size_lem message n out h = rw (lt→leb n (2 ^ 32) h)

abbrev pub sized : List ℕ → List ℕ
sized text = to_le 4 (length text) ++ text

pub encode_text-sized :
    (text out : List ℕ) → length text < 2 ^ 32 → encode_text text out ≡ ok (out ++ sized text)
unfolding encode_text
encode_text-sized text out h =
    rw (put_size_lem "text exceeds u32" (length text) out h, append_assoc)

pub decode_text-sized :
    (valid : List ℕ → Bool) (text rest : List ℕ) (budget : ℕ)
    → length text < 2 ^ 32
    → valid text ≡ true
    → length text ≤ budget
    → decode_text valid (payload_reader (sized text ++ rest) budget)
      ≡ ok (text, payload_reader rest (budget - length text))
unfolding decode_text
decode_text-sized valid text rest budget h v le = rw (
  append_assoc,
  decode_integer 4 (length text) (text ++ rest) budget h,
  spend_budget (length text) (text ++ rest) budget le,
  take_bytes (length text) text rest (budget - length text) refl,
  v,
)

unfoldable pub string-Lawful : (valid : List ℕ → Bool) → Lawful (string valid)
unfolding string
string-Lawful valid = record {
  Valid = λ text. (length text < 2 ^ 32) × (valid text ≡ true);
  bytes = sized;
  cost = λ text. length text;
  encodes = λ text out h. encode_text-sized text out h.0;
  decodes = λ text rest budget h le. decode_text-sized valid text rest budget h.0 h.1 le;
}

module _ {A : Type 0} (T : Payload A) (law : Lawful T) where
  abbrev pub AllValid : List A → Type 0
  AllValid [] = Unit
  AllValid (a ∷ items) = law.Valid a × AllValid items

  abbrev pub joined : List A → List ℕ
  joined [] = []
  joined (a ∷ items) = law.bytes a ++ joined items

  abbrev pub costs : List A → ℕ
  costs [] = 0
  costs (a ∷ items) = law.cost a + costs items

  encode_slice-joined :
      (items : List A) (out : List ℕ)
      → AllValid items
      → encode_slice T items out ≡ ok (out ++ joined items)
  unfolding encode_slice
  encode_slice-joined [] out h = ap ok (sym (append-nil out))
  encode_slice-joined (a ∷ items) out h = rw (law.encodes a out h.0) (
      encode_slice-joined items (out ++ law.bytes a) h.1
      ∙ ap ok (append_assoc out (law.bytes a) (joined items)))

  decode_items-joined :
      (items : List A) (rest : List ℕ) (budget : ℕ)
      → AllValid items
      → costs items ≤ budget
      → decode_items T (length items) (payload_reader (joined items ++ rest) budget)
        ≡ ok (items, payload_reader rest (budget - costs items))
  unfolding decode_items
  decode_items-joined [] rest budget h le =
      ap (λ n. ok ([], payload_reader rest n)) (sym (minus_zero budget))
  decode_items-joined (a ∷ items) rest budget h le =
      rw
        (
          append_assoc,
          law.decodes a (joined items ++ rest) budget h.0 (omega arith),
          decode_items-joined items rest (budget - law.cost a) h.1 (omega arith),
        )
        (ap (λ n. ok (a ∷ items, payload_reader rest n)) (omega arith))

  abbrev pub slots : List A → ℕ
  slots items = length items * max T.size_of 1

  spend_items_lem :
      (n : ℕ) (rest : List ℕ) (budget : ℕ)
      → n * max T.size_of 1 < 2 ^ 64
      → n * max T.size_of 1 ≤ budget
      → spend_items T n (payload_reader rest budget)
        ≡ ok (payload_reader rest (budget - n * max T.size_of 1))
  unfolding spend_items
  spend_items_lem n rest budget wide le =
      rw (lt→ltb (n * max T.size_of 1) (2 ^ 64) wide)
        (spend_budget (n * max T.size_of 1) rest budget le)

  -- The items of a vector that can be written, and be read on a machine of 64 bits.
  pub record IsVector (items : List A) : Type 0 where
    pub count : length items < 2 ^ 32
    pub slots_fit : slots items < 2 ^ 64
    pub valid : AllValid items

  pub encode_vector :
      (items : List A) (out : List ℕ)
      → IsVector items
      → encode_sequence T items out ≡ ok (out ++ (to_le 4 (length items) ++ joined items))
  unfolding encode_sequence
  encode_vector items out is =
      rw (put_size_lem "sequence exceeds u32" (length items) out is.count) (
        encode_slice-joined items (out ++ to_le 4 (length items)) is.valid
        ∙ ap ok (append_assoc out (to_le 4 (length items)) (joined items)))

  pub decode_vector :
      (items : List A) (rest : List ℕ) (budget : ℕ)
      → IsVector items
      → slots items + costs items ≤ budget
      → decode_sequence T (payload_reader ((to_le 4 (length items) ++ joined items) ++ rest) budget)
        ≡ ok (items, payload_reader rest (budget - (slots items + costs items)))
  unfolding decode_sequence
  decode_vector items rest budget is le =
      rw
        (
          append_assoc,
          decode_integer 4 (length items) (joined items ++ rest) budget is.count,
          spend_items_lem (length items) (joined items ++ rest) budget is.slots_fit (omega arith),
          decode_items-joined items rest (budget - slots items) is.valid (omega arith),
        )
        (ap (λ n. ok (items, payload_reader rest n)) (omega arith))

  -- A vector of a lawful binding is lawful.
  unfoldable pub vector-Lawful : Lawful (vector T)
  unfolding vector
  vector-Lawful = record {
    Valid = IsVector;
    bytes = λ items. to_le 4 (length items) ++ joined items;
    cost = λ items. slots items + costs items;
    encodes = encode_vector;
    decodes = decode_vector;
  }

  -- A value of a lawful binding whose bytes are fewer than 2^32 is captured as its bytes, and they are decoded to
  -- it within every budget that covers the value's cost.
  pub decode-capture :
      (a : A) (budget : ℕ)
      → fixed_or_zero T < 2 ^ 32
      → law.Valid a
      → length (law.bytes a) < 2 ^ 32
      → law.cost a ≤ budget
      → (capture T a ≡ ok (law.bytes a)) × (decode T (law.bytes a) budget ≡ ok a)
  unfolding capture decode
  decode-capture a budget fixed h small le = (
    rw (
      lt→leb (fixed_or_zero T) (2 ^ 32) fixed,
      law.encodes a [] h,
      lt→leb (length (law.bytes a)) (2 ^ 32) small,
    ),
    rw (rw append-nil at (law.decodes a [] budget h le))
        (unfold Cursor.done in unfold payload_reader in refl),
  )
