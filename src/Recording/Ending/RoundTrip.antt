-- ===== src/Recording/Ending/RoundTrip.antt =====
-- The record of an ending is read back as the ending, and no other record is.
use vtr.Prelude.{
  ℕ, ◌+◌, ◌-◌, ◌^◌, ◌≤◌, ◌<◌, ◌≡◌, ◌≢◌, refl, sym, ap, ◌∙◌, Bool, true, false, ◌&&◌, List, [], ◌∷◌,
  ◌++◌, append_assoc, length, length-append, bytes_eq_refl, bytes_eq_sound, ==→eq, eq→==, ◌==◌,
  if◌then◌else◌, arith,
}
use vtr.Prelude.Bytes.{IsU32, IsU64, to_le}
use vtr.Error.{Result, ok, err, corrupt, ◌>>=◌, >>=-eq-ok}
use vtr.Schema.Payload.{payload_reader, integer, boolean, string, capture, decode}
use vtr.Schema.Payload.Lawful.{
  Lawful, sized, byte_of, encode_text-sized, decode_text-sized, decode_integer, decode_boolean,
  decode-capture,
}
use vtr.Recording.Ending.{
  Ending, closed, stopped, exited, crashed, recovered, poisoned, RunEnding, display, from,
  by_reason, same_bool, same_fields, ending, encode_fields, decode_fields, run_ending,
}
use vtr.Recording.Ending.Text.{all_ascii, display-IsText}

same_bool_refl : (b : Bool) → same_bool b b ≡ true
same_bool_refl true = refl
same_bool_refl false = refl

same_fields_refl : (r : RunEnding) → same_fields r r ≡ true
unfolding same_fields
same_fields_refl r = rw (
  eq→== r.signal r.signal refl,
  eq→== r.code r.code refl,
  eq→== r.address r.address refl,
  eq→== r.thread r.thread refl,
  same_bool_refl r.sealed,
  eq→== r.status r.status refl,
  eq→== r.dropped r.dropped refl,
  bytes_eq_refl r.message,
)

ending_of :
    (r : RunEnding) (e : Ending)
    → by_reason r ≡ ok e
    → same_fields r (from e) ≡ true
    → ending r ≡ ok e
unfolding ending
ending_of r e h k = rw (h, k)

-- Every ending but a clean close is found again in its record.
pub ending-from : (e : Ending) → e ≢ closed → ending (from e) ≡ ok e
ending-from closed h = absurd (h refl)
ending-from (stopped s) h =
    ending_of (from (stopped s)) (stopped s) (unfold by_reason in unfold from in refl)
      (same_fields_refl (from (stopped s)))
ending-from (exited s) h =
    ending_of (from (exited s)) (exited s) (unfold by_reason in unfold from in refl)
      (same_fields_refl (from (exited s)))
ending-from (crashed s c a t b) h =
    ending_of (from (crashed s c a t b)) (crashed s c a t b)
      (unfold by_reason in unfold from in refl) (same_fields_refl (from (crashed s c a t b)))
ending-from (recovered d) h =
    ending_of (from (recovered d)) (recovered d) (unfold by_reason in unfold from in refl)
      (same_fields_refl (from (recovered d)))
ending-from poisoned h =
    ending_of (from poisoned) poisoned (unfold by_reason in unfold from in refl)
      (same_fields_refl (from poisoned))

same_bool_sound : (a b : Bool) → same_bool a b ≡ true → a ≡ b
same_bool_sound true b h = sym h
same_bool_sound false true h = cc
same_bool_sound false false h = refl

-- The fields that the test compares are equal.
record SameFields (a b : RunEnding) : Type 0 where
  message : a.message ≡ b.message
  signal : a.signal ≡ b.signal
  code : a.code ≡ b.code
  address : a.address ≡ b.address
  thread : a.thread ≡ b.thread
  sealed : a.sealed ≡ b.sealed
  status : a.status ≡ b.status
  dropped : a.dropped ≡ b.dropped

and_left : (a b : Bool) → (a && b) ≡ true → a ≡ true
and_left true b h = refl
and_left false b h = h

and_right : (a b : Bool) → (a && b) ≡ true → b ≡ true
and_right true b h = h
and_right false b h = cc

same_fields_sound : (a b : RunEnding) → same_fields a b ≡ true → SameFields a b
unfolding same_fields
same_fields_sound a b h =
    let h1 = and_right (a.signal == b.signal) _ h in
    let h2 = and_right (a.code == b.code) _ h1 in
    let h3 = and_right (a.address == b.address) _ h2 in
    let h4 = and_right (a.thread == b.thread) _ h3 in
    let h5 = and_right (same_bool a.sealed b.sealed) _ h4 in
    let h6 = and_right (a.status == b.status) _ h5 in
    record {
      message = bytes_eq_sound a.message b.message (and_right (a.dropped == b.dropped) _ h6);
      signal = ==→eq a.signal b.signal (and_left (a.signal == b.signal) _ h);
      code = ==→eq a.code b.code (and_left (a.code == b.code) _ h1);
      address = ==→eq a.address b.address (and_left (a.address == b.address) _ h2);
      thread = ==→eq a.thread b.thread (and_left (a.thread == b.thread) _ h3);
      sealed = same_bool_sound a.sealed b.sealed (and_left (same_bool a.sealed b.sealed) _ h4);
      status = ==→eq a.status b.status (and_left (a.status == b.status) _ h5);
      dropped = ==→eq a.dropped b.dropped (and_left (a.dropped == b.dropped) _ h6);
    }

by_reason-from : (r : RunEnding) (e : Ending) → by_reason r ≡ ok e → r.reason ≡ (from e).reason
unfolding by_reason from
by_reason-from r e h = ground arith

run_ending_eq : (a b : RunEnding) → a.reason ≡ b.reason → SameFields a b → a ≡ b
run_ending_eq a b h s =
    cc (h, s.message, s.signal, s.code, s.address, s.thread, s.sealed, s.status, s.dropped)

accepted :
    (c : Bool) (e e' : Ending)
    → (if c then ok e else err (corrupt "noncanonical run-ending record")) ≡ ok e'
    → (c ≡ true) × (e ≡ e')
accepted true e e' h = (refl, cc)
accepted false e e' h = cc

-- A record that is taken for an ending is the one that the ending is written as.
pub ending_canonical : (r : RunEnding) (e : Ending) → ending r ≡ ok e → r ≡ from e
unfolding ending
ending_canonical r e h =
    let (e0, h0, h1) = >>=-eq-ok (by_reason r) _ h in
    let (same, end) = accepted (same_fields r (from e0)) e0 e h1 in
    run_ending_eq r (from e0) (by_reason-from r e0 h0) (same_fields_sound r (from e0) same)
    ∙ ap from end

-- The fields have the widths of their types, and the message is text of less than 2^32 bytes.
record HasWidths (valid : List ℕ → Bool) (r : RunEnding) : Type 0 where
  message : length r.message < 2 ^ 32
  text : valid r.message ≡ true
  reason : r.reason < 256
  signal : IsU32 r.signal
  code : IsU32 r.code
  address : IsU64 r.address
  thread : IsU64 r.thread
  status : IsU32 r.status
  dropped : IsU64 r.dropped

abbrev fields_bytes : RunEnding → List ℕ
fields_bytes r =
    sized r.message
    ++ (to_le 1 r.reason
        ++ (to_le 4 r.signal
            ++ (to_le 4 r.code
                ++ (to_le 8 r.address
                    ++ (to_le 8 r.thread
                        ++ ((byte_of r.sealed ∷ []) ++ (to_le 4 r.status ++ to_le 8 r.dropped)))))))

module _ (valid : List ℕ → Bool) where
  encode_fields-bytes :
      (r : RunEnding) (out : List ℕ)
      → HasWidths valid r
      → encode_fields valid r out ≡ ok (out ++ fields_bytes r)
  unfolding encode_fields string integer boolean
  encode_fields-bytes r out w =
      rw (encode_text-sized r.message out w.message) (ap ok (simp append_assoc))

  decode_fields-bytes :
      (r : RunEnding) (rest : List ℕ) (budget : ℕ)
      → HasWidths valid r
      → length r.message ≤ budget
      → decode_fields valid (payload_reader (fields_bytes r ++ rest) budget)
        ≡ ok (r, payload_reader rest (budget - length r.message))
  unfolding decode_fields string
  decode_fields-bytes r rest budget w le =
      let left = budget - length r.message in
      rw (
        append_assoc (sized r.message) _ rest,
        decode_text-sized valid r.message _ budget w.message w.text le,
        append_assoc (to_le 1 r.reason) _ rest,
        decode_integer 1 r.reason _ left w.reason,
        append_assoc (to_le 4 r.signal) _ rest,
        decode_integer 4 r.signal _ left w.signal,
        append_assoc (to_le 4 r.code) _ rest,
        decode_integer 4 r.code _ left w.code,
        append_assoc (to_le 8 r.address) _ rest,
        decode_integer 8 r.address _ left w.address,
        append_assoc (to_le 8 r.thread) _ rest,
        decode_integer 8 r.thread _ left w.thread,
        decode_boolean r.sealed _ left,
        append_assoc (to_le 4 r.status) (to_le 8 r.dropped) rest,
        decode_integer 4 r.status _ left w.status,
        decode_integer 8 r.dropped rest left w.dropped,
      )

  unfoldable run_ending-Lawful : Lawful (run_ending valid)
  unfolding run_ending
  run_ending-Lawful = record {
    Valid = HasWidths valid;
    bytes = fields_bytes;
    cost = λ r. length r.message;
    encodes = encode_fields-bytes;
    decodes = decode_fields-bytes;
  }

-- The widths of an ending's own fields.
abbrev pub IsEnding : Ending → Type 0
IsEnding closed = Unit
IsEnding (stopped signal) = IsU32 signal
IsEnding (exited status) = IsU32 status
IsEnding (crashed signal code address thread sealed) =
    IsU32 signal × IsU32 code × IsU64 address × IsU64 thread
IsEnding (recovered dropped) = IsU64 dropped
IsEnding poisoned = Unit

module _ (valid : List ℕ → Bool)
    (ascii_valid : (text : List ℕ) → all_ascii text ≡ true → valid text ≡ true) where
  text_fits : (e : Ending) → (length (display e) < 2 ^ 32) × (valid (display e) ≡ true)
  text_fits e =
      let t = display-IsText e in (omega (arith, t.short), ascii_valid (display e) t.ascii)

  from-HasWidths : (e : Ending) → IsEnding e → HasWidths valid (from e)
  unfolding from
  from-HasWidths closed w =
      let t = text_fits closed in
      record {
        message = t.0;
        text = t.1;
        reason = omega arith;
        signal = omega arith;
        code = omega arith;
        address = omega arith;
        thread = omega arith;
        status = omega arith;
        dropped = omega arith;
      }
  from-HasWidths (stopped s) w =
      let t = text_fits (stopped s) in
      record {
        message = t.0;
        text = t.1;
        reason = omega arith;
        signal = w;
        code = omega arith;
        address = omega arith;
        thread = omega arith;
        status = omega arith;
        dropped = omega arith;
      }
  from-HasWidths (exited s) w =
      let t = text_fits (exited s) in
      record {
        message = t.0;
        text = t.1;
        reason = omega arith;
        signal = omega arith;
        code = omega arith;
        address = omega arith;
        thread = omega arith;
        status = w;
        dropped = omega arith;
      }
  from-HasWidths (crashed s c a h b) w =
      let t = text_fits (crashed s c a h b) in
      record {
        message = t.0;
        text = t.1;
        reason = omega arith;
        signal = w.0;
        code = w.1;
        address = w.2;
        thread = w.3;
        status = omega arith;
        dropped = omega arith;
      }
  from-HasWidths (recovered d) w =
      let t = text_fits (recovered d) in
      record {
        message = t.0;
        text = t.1;
        reason = omega arith;
        signal = omega arith;
        code = omega arith;
        address = omega arith;
        thread = omega arith;
        status = omega arith;
        dropped = w;
      }
  from-HasWidths poisoned w =
      let t = text_fits poisoned in
      record {
        message = t.0;
        text = t.1;
        reason = omega arith;
        signal = omega arith;
        code = omega arith;
        address = omega arith;
        thread = omega arith;
        status = omega arith;
        dropped = omega arith;
      }

  message-from : (e : Ending) → (from e).message ≡ display e
  unfolding from
  message-from closed = refl
  message-from (stopped s) = refl
  message-from (exited s) = refl
  message-from (crashed s c a h b) = refl
  message-from (recovered d) = refl
  message-from poisoned = refl

  short_message : (e : Ending) → length (from e).message ≤ 200
  short_message e = omega (arith, (display-IsText e).short, ap length (message-from e))

length-fields_bytes : (r : RunEnding) → length (fields_bytes r) ≡ length r.message + 42
unfolding to_le
length-fields_bytes r = omega (
  arith,
  length-append r.message (
      to_le 1 r.reason
      ++ (to_le 4 r.signal
          ++ (to_le 4 r.code
              ++ (to_le 8 r.address
                  ++ (to_le 8 r.thread
                      ++ ((byte_of r.sealed ∷ []) ++ (to_le 4 r.status ++ to_le 8 r.dropped))))))),
)

-- What is found again of an ending: a clean close has no record.
abbrev pub found : Ending → Result Ending
found closed = err (corrupt "invalid run-ending reason")
found end = ok end

ending-found : (e : Ending) → ending (from e) ≡ found e
ending-found closed = unfold ending in unfold from in unfold by_reason in refl
ending-found (stopped s) = ending-from (stopped s) (λ k. cc)
ending-found (exited s) = ending-from (exited s) (λ k. cc)
ending-found (crashed s c a t b) = ending-from (crashed s c a t b) (λ k. cc)
ending-found (recovered d) = ending-from (recovered d) (λ k. cc)
ending-found poisoned = ending-from poisoned (λ k. cc)

-- Where ASCII text is valid UTF-8: the record of any ending is captured, and with an allocation budget of 200 bytes
-- or more it is decoded and taken for the same ending, except that the record of a clean close is refused.
pub ending-decode-capture :
    (valid : List ℕ → Bool)
    (ascii_valid : (text : List ℕ) → all_ascii text ≡ true → valid text ≡ true) (e : Ending)
    (budget : ℕ)
    → IsEnding e
    → 200 ≤ budget
    → (bytes : List ℕ) × (capture (run_ending valid) (from e) ≡ ok bytes)
      × ((decode (run_ending valid) bytes budget >>= ending) ≡ found e)
unfolding run_ending run_ending-Lawful
ending-decode-capture valid ascii_valid e budget widths enough =
    let w = from-HasWidths valid ascii_valid e widths in
    let short = short_message valid ascii_valid e in
    let (captured, decoded) =
      decode-capture (run_ending valid) (run_ending-Lawful valid) (from e) budget (omega arith) w
        (omega (arith, length-fields_bytes (from e), short)) (omega (arith, short)) in
    (fields_bytes (from e), captured, rw decoded (ending-found e))
