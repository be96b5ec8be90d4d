-- ===== src/Recording/Ending.antt =====
-- vtr-rs/src/recording/ending.rs: the record of how a run ended. Text is its bytes, an `i32` is its bit pattern, and
-- the formatting of integers is that of the standard library.
pub mod Text
pub mod RoundTrip
use vtr.Prelude.{
  ℕ, zero, suc, ◌+◌, ◌-◌, ◌/◌, ◌%◌, ◌^◌, Bool, true, false, not, ◌&&◌, ◌||◌, Option, none, some,
  List, [], ◌∷◌, ◌++◌, get_elem?, ltb, ◌==◌, bytes_eq, if◌then◌else◌,
}
use vtr.Error.{Result, ok, err, corrupt, ◌>>=◌}
use vtr.Schema.Payload.{PayloadReader, Payload, integer, boolean, string, encode_text, decode_text}

pub data Ending : Type 0 where
  closed : Ending
  stopped : ℕ → Ending
  exited : ℕ → Ending
  -- The signal, its code, the address, the thread, and whether it was sealed in the middle of a call.
  crashed : ℕ → ℕ → ℕ → ℕ → Bool → Ending
  recovered : ℕ → Ending
  poisoned : Ending

pub record RunEnding : Type 0 where
  pub message : List ℕ
  pub reason : ℕ
  pub signal : ℕ
  pub code : ℕ
  pub address : ℕ
  pub thread : ℕ
  pub sealed : Bool
  pub status : ℕ
  pub dropped : ℕ

abbrev sig : List ℕ → List ℕ
sig name = b'S' ∷ b'I' ∷ b'G' ∷ name

abbrev names : List (List ℕ)
names =
    sig (b'H' ∷ b'U' ∷ b'P' ∷ [])
    ∷ sig (b'I' ∷ b'N' ∷ b'T' ∷ [])
    ∷ sig (b'Q' ∷ b'U' ∷ b'I' ∷ b'T' ∷ [])
    ∷ sig (b'I' ∷ b'L' ∷ b'L' ∷ [])
    ∷ sig (b'T' ∷ b'R' ∷ b'A' ∷ b'P' ∷ [])
    ∷ sig (b'A' ∷ b'B' ∷ b'R' ∷ b'T' ∷ [])
    ∷ sig (b'B' ∷ b'U' ∷ b'S' ∷ [])
    ∷ sig (b'F' ∷ b'P' ∷ b'E' ∷ [])
    ∷ sig (b'K' ∷ b'I' ∷ b'L' ∷ b'L' ∷ [])
    ∷ sig (b'U' ∷ b'S' ∷ b'R' ∷ b'1' ∷ [])
    ∷ sig (b'S' ∷ b'E' ∷ b'G' ∷ b'V' ∷ [])
    ∷ sig (b'U' ∷ b'S' ∷ b'R' ∷ b'2' ∷ [])
    ∷ sig (b'P' ∷ b'I' ∷ b'P' ∷ b'E' ∷ [])
    ∷ sig (b'A' ∷ b'L' ∷ b'R' ∷ b'M' ∷ [])
    ∷ sig (b'T' ∷ b'E' ∷ b'R' ∷ b'M' ∷ [])
    ∷ sig (b'S' ∷ b'T' ∷ b'K' ∷ b'F' ∷ b'L' ∷ b'T' ∷ [])
    ∷ sig (b'C' ∷ b'H' ∷ b'L' ∷ b'D' ∷ [])
    ∷ sig (b'C' ∷ b'O' ∷ b'N' ∷ b'T' ∷ [])
    ∷ sig (b'S' ∷ b'T' ∷ b'O' ∷ b'P' ∷ [])
    ∷ sig (b'T' ∷ b'S' ∷ b'T' ∷ b'P' ∷ [])
    ∷ sig (b'T' ∷ b'T' ∷ b'I' ∷ b'N' ∷ [])
    ∷ sig (b'T' ∷ b'T' ∷ b'O' ∷ b'U' ∷ [])
    ∷ sig (b'U' ∷ b'R' ∷ b'G' ∷ [])
    ∷ sig (b'X' ∷ b'C' ∷ b'P' ∷ b'U' ∷ [])
    ∷ sig (b'X' ∷ b'F' ∷ b'S' ∷ b'Z' ∷ [])
    ∷ sig (b'V' ∷ b'T' ∷ b'A' ∷ b'L' ∷ b'R' ∷ b'M' ∷ [])
    ∷ sig (b'P' ∷ b'R' ∷ b'O' ∷ b'F' ∷ [])
    ∷ sig (b'W' ∷ b'I' ∷ b'N' ∷ b'C' ∷ b'H' ∷ [])
    ∷ sig (b'I' ∷ b'O' ∷ [])
    ∷ sig (b'P' ∷ b'W' ∷ b'R' ∷ [])
    ∷ sig (b'S' ∷ b'Y' ∷ b'S' ∷ [])
    ∷ []

-- `signal as usize`, which extends the sign.
sign_extended : ℕ → ℕ
sign_extended v = if ltb v (2 ^ 31) then v else v + (2 ^ 64 - 2 ^ 32)

unfoldable pub signal_name : ℕ → Option (List ℕ)
unfolding sign_extended
signal_name signal = get_elem? names ((sign_extended signal + (2 ^ 64 - 1)) % 2 ^ 64)

-- The digits of a number in a base, with as many rounds as the widest number has digits.
digits : (ℕ → ℕ) → ℕ → ℕ → ℕ → List ℕ
digits digit base zero v = []
digits digit base (suc n) v =
    let more = digits digit base n (v / base) in
    if ltb v base then digit v ∷ [] else more ++ digit (v % base) ∷ []

decimal_digit : ℕ → ℕ
decimal_digit d = b'0' + d

hex_digit : ℕ → ℕ
hex_digit d = if ltb d 10 then b'0' + d else b'a' + (d - 10)

-- `{}` of a `u64`, and of an `i32`.
pub decimal : ℕ → List ℕ
unfolding digits decimal_digit
decimal v = digits decimal_digit 10 20 v

pub signed : ℕ → List ℕ
unfolding decimal
signed v = if ltb v (2 ^ 31) then decimal v else b'-' ∷ decimal (2 ^ 32 - v)

-- `{:#x}` of a `u64`.
pub hex : ℕ → List ℕ
unfolding digits hex_digit
hex v = b'0' ∷ b'x' ∷ digits hex_digit 16 16 v

abbrev name_or_number : ℕ → Option (List ℕ) → List ℕ
name_or_number signal none = (b's' ∷ b'i' ∷ b'g' ∷ b'n' ∷ b'a' ∷ b'l' ∷ b' ' ∷ []) ++ signed signal
name_or_number signal (some name) = name

-- `Display for Sig`
pub sig_text : ℕ → List ℕ
unfolding signal_name signed
sig_text signal = name_or_number signal (signal_name signal)

abbrev mid_call : Bool → List ℕ
mid_call sealed =
    if sealed
    then b',' ∷ b' ' ∷ b's' ∷ b'e' ∷ b'a' ∷ b'l' ∷ b'e' ∷ b'd' ∷ b' ' ∷ b'm' ∷ b'i' ∷ b'd' ∷ b'-'
      ∷ b'c' ∷ b'a' ∷ b'l' ∷ b'l' ∷ []
    else []

-- `Display for Ending`
unfoldable pub display : Ending → List ℕ
unfolding sig_text decimal signed hex
display closed = b'c' ∷ b'l' ∷ b'o' ∷ b's' ∷ b'e' ∷ b'd' ∷ []
display (stopped signal) =
    (b's' ∷ b't' ∷ b'o' ∷ b'p' ∷ b'p' ∷ b'e' ∷ b'd' ∷ b' ' ∷ b'b' ∷ b'y' ∷ b' ' ∷ [])
    ++ sig_text signal
display (exited status) =
    (b'e' ∷ b'x' ∷ b'i' ∷ b't' ∷ b'e' ∷ b'd' ∷ b' ' ∷ b'w' ∷ b'i' ∷ b't' ∷ b'h' ∷ b' ' ∷ b's' ∷ b't'
      ∷ b'a' ∷ b't' ∷ b'u' ∷ b's' ∷ b' ' ∷ [])
    ++ signed status
display (crashed signal code address thread sealed) =
    (b'c' ∷ b'r' ∷ b'a' ∷ b's' ∷ b'h' ∷ b'e' ∷ b'd' ∷ b' ' ∷ b'b' ∷ b'y' ∷ b' ' ∷ [])
    ++ (sig_text signal
        ++ ((b' ' ∷ b'(' ∷ b'a' ∷ b'd' ∷ b'd' ∷ b'r' ∷ b'e' ∷ b's' ∷ b's' ∷ b' ' ∷ [])
            ++ (hex address
                ++ ((b',' ∷ b' ' ∷ b't' ∷ b'h' ∷ b'r' ∷ b'e' ∷ b'a' ∷ b'd' ∷ b' ' ∷ [])
                    ++ (decimal thread ++ (mid_call sealed ++ b')' ∷ []))))))
display (recovered dropped) =
    (b'r' ∷ b'e' ∷ b'c' ∷ b'o' ∷ b'v' ∷ b'e' ∷ b'r' ∷ b'e' ∷ b'd' ∷ b' ' ∷ b'b' ∷ b'y' ∷ b' ' ∷ b's'
      ∷ b'c' ∷ b'a' ∷ b'n' ∷ b'n' ∷ b'i' ∷ b'n' ∷ b'g' ∷ b' ' ∷ b'(' ∷ [])
    ++ (decimal dropped
        ++ (b' ' ∷ b'b' ∷ b'y' ∷ b't' ∷ b'e' ∷ b's' ∷ b' ' ∷ b'd' ∷ b'r' ∷ b'o' ∷ b'p' ∷ b'p' ∷ b'e'
            ∷ b'd' ∷ b')' ∷ []))
display poisoned =
    b's' ∷ b'e' ∷ b'a' ∷ b'l' ∷ b'e' ∷ b'd' ∷ b' ' ∷ b'a' ∷ b'f' ∷ b't' ∷ b'e' ∷ b'r' ∷ b' ' ∷ b'a'
    ∷ b' ' ∷ b'p' ∷ b'a' ∷ b'n' ∷ b'i' ∷ b'c' ∷ b' ' ∷ b'i' ∷ b'n' ∷ b' ' ∷ b't' ∷ b'h' ∷ b'e'
    ∷ b' ' ∷ b'w' ∷ b'r' ∷ b'i' ∷ b't' ∷ b'e' ∷ b'r' ∷ []

abbrev blank : Ending → RunEnding
blank end = record {
  message = display end;
  reason = 0;
  signal = 0;
  code = 0;
  address = 0;
  thread = 0;
  sealed = false;
  status = 0;
  dropped = 0;
}

-- `From<Ending>`
unfoldable pub from : Ending → RunEnding
from closed = blank closed
from (stopped signal) = record (blank (stopped signal)) { reason = 1; signal = signal }
from (exited status) = record (blank (exited status)) { reason = 2; status = status }
from (crashed signal code address thread sealed) =
    record (blank (crashed signal code address thread sealed)) {
      reason = 3;
      signal = signal;
      code = code;
      address = address;
      thread = thread;
      sealed = sealed;
    }
from (recovered dropped) = record (blank (recovered dropped)) { reason = 4; dropped = dropped }
from poisoned = record (blank poisoned) { reason = 5 }

-- `match self.reason`
by_reason : RunEnding → Result Ending
by_reason r =
    if r.reason == 1
    then ok (stopped r.signal)
    else if r.reason == 2
    then ok (exited r.status)
    else if r.reason == 3
    then ok (crashed r.signal r.code r.address r.thread r.sealed)
    else if r.reason == 4
    then ok (recovered r.dropped)
    else if r.reason == 5
    then ok poisoned
    else err (corrupt "invalid run-ending reason")

abbrev same_bool : Bool → Bool → Bool
same_bool a b = if a then b else not b

-- No field but the reason, which has been looked at, differs.
same_fields : RunEnding → RunEnding → Bool
same_fields a b =
    a.signal == b.signal
    && (a.code == b.code
        && (a.address == b.address
            && (a.thread == b.thread
                && (same_bool a.sealed b.sealed
                    && (a.status == b.status
                        && (a.dropped == b.dropped && bytes_eq a.message b.message))))))

unfoldable pub ending : RunEnding → Result Ending
unfolding by_reason same_fields
ending r = do
  end ← by_reason r
  if same_fields r (from end) then ok end else err (corrupt "noncanonical run-ending record")

module _ (valid : List ℕ → Bool) where
  encode_fields : RunEnding → List ℕ → Result (List ℕ)
  encode_fields r out = do
    out1 ← (string valid).encode r.message out
    out2 ← (integer 1).encode r.reason out1
    out3 ← (integer 4).encode r.signal out2
    out4 ← (integer 4).encode r.code out3
    out5 ← (integer 8).encode r.address out4
    out6 ← (integer 8).encode r.thread out5
    out7 ← boolean.encode r.sealed out6
    out8 ← (integer 4).encode r.status out7
    (integer 8).encode r.dropped out8

  decode_fields : PayloadReader → Result (RunEnding × PayloadReader)
  decode_fields r = do
    (message, r1) ← (string valid).decode r
    (reason, r2) ← (integer 1).decode r1
    (signal, r3) ← (integer 4).decode r2
    (code, r4) ← (integer 4).decode r3
    (address, r5) ← (integer 8).decode r4
    (thread, r6) ← (integer 8).decode r5
    (sealed, r7) ← boolean.decode r6
    (status, r8) ← (integer 4).decode r7
    (dropped, r9) ← (integer 8).decode r8
    ok (
      record {
        message = message;
        reason = reason;
        signal = signal;
        code = code;
        address = address;
        thread = thread;
        sealed = sealed;
        status = status;
        dropped = dropped;
      },
      r9,
    )

  -- `Payload for RunEnding`
  unfoldable pub run_ending : Payload RunEnding
  unfolding encode_fields decode_fields
  run_ending = record {
    fixed_size = none;
    size_of = 64;
    encode = encode_fields;
    decode = decode_fields;
  }
