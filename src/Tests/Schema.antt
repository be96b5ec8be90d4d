-- ===== src/Tests/Schema.antt =====
-- A vector of two texts, as vtr-rs/src/schema.rs captures it.
use vtr.Prelude.{ℕ, ◌≡◌, refl, Bool, true, ltb, List, [], ◌∷◌, ◌&&◌, arith}
use vtr.Prelude.Bytes.{to_le}
use vtr.Error.{ok}
use vtr.Schema.Payload.{integer, string, vector, capture, decode}
use vtr.Schema.Payload.Lawful.{integer-Lawful, string-Lawful, vector-Lawful}
use vtr.Schema.Payload.Bindings.{
  vec_type, string_type, payload_of, binding-Lawful, written, decode-capture-payload_of,
}

-- ASCII text.
abbrev ascii : List ℕ → Bool
ascii [] = true
ascii (b ∷ bs) = ltb b 128 && ascii bs

abbrev texts : List (List ℕ)
texts = (72 ∷ 105 ∷ []) ∷ [] ∷ []

abbrev texts_bytes : List ℕ
texts_bytes = written ascii (vec_type string_type) texts

decode-capture-payload_of_example :
    (capture (payload_of ascii (vec_type string_type)) texts ≡ ok texts_bytes)
    × (decode (payload_of ascii (vec_type string_type)) texts_bytes 100 ≡ ok texts)
unfolding payload_of binding-Lawful vector string integer vector-Lawful string-Lawful integer-Lawful
    to_le
decode-capture-payload_of_example =
    decode-capture-payload_of ascii (vec_type string_type) texts 100
      (record {
        count = omega arith;
        slots_fit = omega arith;
        valid = ((omega arith, refl), ((omega arith, refl), tt));
      })
      (omega arith) (omega arith)
