-- ===== src/Schema/Payload/Bindings.antt =====
-- vtr-rs/src/schema.rs: the bindings that integers, bool, String and Vec make together, vectors of vectors included.
use vtr.Prelude.{ℕ, ◌^◌, ◌≤◌, ◌<◌, ◌≡◌, Bool, List, length, arith}
use vtr.Error.{ok}
use vtr.Schema.Payload.{Payload, integer, boolean, string, vector, fixed_or_zero, capture, decode}
use vtr.Schema.Payload.Lawful.{
  Lawful, integer-Lawful, boolean-Lawful, string-Lawful, vector-Lawful, decode-capture,
}

-- The integers of `scalar_payload!`, by their size: a signed one is its bit pattern.
pub data Scalar : Type 0 where
  byte_scalar short_scalar word_scalar long_scalar : Scalar

abbrev pub scalar_size : Scalar → ℕ
scalar_size byte_scalar = 1
scalar_size short_scalar = 2
scalar_size word_scalar = 4
scalar_size long_scalar = 8

-- A Rust type with a binding.
pub data Binding : Type 0 where
  scalar_type : Scalar → Binding
  bool_type : Binding
  string_type : Binding
  vec_type : Binding → Binding

abbrev pub Value : Binding → Type 0
Value (scalar_type s) = ℕ
Value bool_type = Bool
Value string_type = List ℕ
Value (vec_type b) = List (Value b)

module _ (valid : List ℕ → Bool) where
  unfoldable pub payload_of : (b : Binding) → Payload (Value b)
  payload_of (scalar_type s) = integer (scalar_size s)
  payload_of bool_type = boolean
  payload_of string_type = string valid
  payload_of (vec_type b) = vector (payload_of b)

  unfoldable pub binding-Lawful : (b : Binding) → Lawful (payload_of b)
  unfolding payload_of
  binding-Lawful (scalar_type s) = integer-Lawful (scalar_size s)
  binding-Lawful bool_type = boolean-Lawful
  binding-Lawful string_type = string-Lawful valid
  binding-Lawful (vec_type b) = vector-Lawful (payload_of b) (binding-Lawful b)

  -- What a value of the type is, in the ranges of integers and lengths and with valid text; the bytes it is
  -- written as; and what these take of the budget.
  abbrev pub IsValue : (b : Binding) → Value b → Type 0
  IsValue b a = (binding-Lawful b).Valid a

  abbrev pub written : (b : Binding) → Value b → List ℕ
  written b a = (binding-Lawful b).bytes a

  abbrev pub budget_of : (b : Binding) → Value b → ℕ
  budget_of b a = (binding-Lawful b).cost a

  scalar_small : (s : Scalar) → scalar_size s < 2 ^ 32
  scalar_small byte_scalar = omega arith
  scalar_small short_scalar = omega arith
  scalar_small word_scalar = omega arith
  scalar_small long_scalar = omega arith

  fixed_small : (b : Binding) → fixed_or_zero (payload_of b) < 2 ^ 32
  unfolding payload_of integer boolean string vector
  fixed_small (scalar_type s) = scalar_small s
  fixed_small bool_type = omega arith
  fixed_small string_type = omega arith
  fixed_small (vec_type b) = omega arith

  -- A value of any type made of integers, bool, String and Vec, whose integers and lengths are in range, whose text
  -- is valid and whose bytes are fewer than 2^32, is captured, and what it is captured as is decoded to it within
  -- every budget that covers its text and its vectors' slots.
  pub decode-capture-payload_of :
      (b : Binding) (a : Value b) (budget : ℕ)
      → IsValue b a
      → length (written b a) < 2 ^ 32
      → budget_of b a ≤ budget
      → (capture (payload_of b) a ≡ ok (written b a))
        × (decode (payload_of b) (written b a) budget ≡ ok a)
  decode-capture-payload_of b a budget is small le =
      decode-capture (payload_of b) (binding-Lawful b) a budget (fixed_small b) is small le
