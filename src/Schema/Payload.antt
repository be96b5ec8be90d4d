-- ===== src/Schema/Payload.antt =====
-- vtr-rs/src/schema.rs: the trait `Payload` as a record of its two directions, the reader with its allocation
-- budget, and the bindings of scalars, text and vectors. An integer of n bytes is its bit pattern. `bind` and
-- `matches`, which build and compare declarations, are left out.
pub mod Lawful
pub mod Bindings
use vtr.Prelude.{
  ℕ, String, zero, suc, ◌-◌, ◌*◌, ◌^◌, max, Bool, true, false, Option, none, some, List, [], ◌∷◌,
  ◌++◌, length, ltb, leb, if◌then◌else◌,
}
use vtr.Prelude.Bytes.{to_le, from_le}
use vtr.Error.{Result, ok, err, corrupt, invalid, ◌>>=◌, ◌>>◌}
use vtr.Wire.Cursor
use vtr.Wire.Cursor.{Cursor}

pub record PayloadReader : Type 0 where
  pub cursor : Cursor
  pub allocation_budget : ℕ

unfoldable pub payload_reader : List ℕ → ℕ → PayloadReader
payload_reader bytes budget = record { cursor = bytes; allocation_budget = budget }

unfoldable pub take : ℕ → PayloadReader → Result (List ℕ × PayloadReader)
take size r = do (bytes, d) ← Cursor.take size r.cursor; ok (bytes, record r { cursor = d })

unfoldable pub spend : ℕ → PayloadReader → Result PayloadReader
spend bytes r =
    if ltb r.allocation_budget bytes
    then err (corrupt "payload allocation budget exceeded")
    else ok (record r { allocation_budget = r.allocation_budget - bytes })

-- `encode` appends to the vector; `size_of` is the size of the type in memory.
pub record Payload (A : Type 0) : Type 0 where
  pub fixed_size : Option ℕ
  pub size_of : ℕ
  pub encode : A → List ℕ → Result (List ℕ)
  pub decode : PayloadReader → Result (A × PayloadReader)

-- The binding of an integer of `size` bytes.
unfoldable pub integer : ℕ → Payload ℕ
integer size = record {
  fixed_size = some size;
  size_of = size;
  encode = λ v out. ok (out ++ to_le size v);
  decode = λ r. (do (bytes, r') ← take size r; ok (from_le bytes, r'));
}

abbrev of_byte : List ℕ → Result Bool
of_byte (zero ∷ bs) = ok false
of_byte (suc zero ∷ bs) = ok true
of_byte _ = err (corrupt "invalid bool argument")

unfoldable pub boolean : Payload Bool
boolean = record {
  fixed_size = some 1;
  size_of = 1;
  encode = λ b out. ok (out ++ (if b then 1 else 0) ∷ []);
  decode = λ r. (do (bytes, r') ← take 1 r; b ← of_byte bytes; ok (b, r'));
}

-- `u32::try_from(length)`, encoded.
put_size : String → ℕ → List ℕ → Result (List ℕ)
put_size message length out =
    if leb (2 ^ 32) length then err (invalid message) else ok (out ++ to_le 4 length)

unfoldable pub encode_text : List ℕ → List ℕ → Result (List ℕ)
unfolding put_size
encode_text text out = do out' ← put_size "text exceeds u32" (length text) out; ok (out' ++ text)

-- `valid` is `std::str::from_utf8`'s test.
unfoldable pub decode_text : (List ℕ → Bool) → PayloadReader → Result (List ℕ × PayloadReader)
unfolding integer
decode_text valid r = do
  (size, r1) ← (integer 4).decode r
  r2 ← spend size r1
  (bytes, r3) ← take size r2
  if valid bytes then ok (bytes, r3) else err (corrupt "invalid UTF-8")

-- `String`, by its bytes.
unfoldable pub string : (List ℕ → Bool) → Payload (List ℕ)
string valid = record {
  fixed_size = none;
  size_of = 24;
  encode = encode_text;
  decode = decode_text valid;
}

module _ {A : Type 0} (T : Payload A) where
  -- `encode_slice`
  pub encode_slice : List A → List ℕ → Result (List ℕ)
  encode_slice [] out = ok out
  encode_slice (a ∷ items) out = do out' ← T.encode a out; encode_slice items out'

  unfoldable pub encode_sequence : List A → List ℕ → Result (List ℕ)
  unfolding put_size encode_slice
  encode_sequence items out = do
    out' ← put_size "sequence exceeds u32" (length items) out
    encode_slice items out'

  -- `for _ in 0..size`
  pub decode_items : ℕ → PayloadReader → Result (List A × PayloadReader)
  decode_items zero r = ok ([], r)
  decode_items (suc n) r = do
    (a, r1) ← T.decode r
    (items, r2) ← decode_items n r1
    ok (a ∷ items, r2)

  -- `size.checked_mul(size_of::<T>().max(1))` and `spend` of it.
  pub spend_items : ℕ → PayloadReader → Result PayloadReader
  spend_items size r =
      if ltb (size * max T.size_of 1) (2 ^ 64)
      then spend (size * max T.size_of 1) r
      else err (corrupt "payload allocation budget exceeded")

  unfoldable pub decode_sequence : PayloadReader → Result (List A × PayloadReader)
  unfolding integer decode_items spend_items
  decode_sequence r = do
    (size, r1) ← (integer 4).decode r
    r2 ← spend_items size r1
    decode_items size r2

  -- `Vec<T>`
  unfoldable pub vector : Payload (List A)
  vector = record {
    fixed_size = none;
    size_of = 24;
    encode = encode_sequence;
    decode = decode_sequence;
  }

  -- `T::fixed_size().unwrap_or(0)`
  abbrev pub fixed_or_zero : ℕ
  fixed_or_zero = elim T.fixed_size [ none ↦ 0 | some n ↦ n ]

  unfoldable pub capture : A → Result (List ℕ)
  capture value = if leb (2 ^ 32) fixed_or_zero then err (invalid "payload exceeds u32") else do
    out ← T.encode value []
    if leb (2 ^ 32) (length out) then err (invalid "payload exceeds u32") else ok out

  unfoldable pub decode : List ℕ → ℕ → Result A
  decode bytes allocation_budget = do
    (value, r) ← T.decode (payload_reader bytes allocation_budget)
    Cursor.done r.cursor
    ok value
