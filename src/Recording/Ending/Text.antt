-- ===== src/Recording/Ending/Text.antt =====
-- The messages are short and ASCII.
use vtr.Prelude.{
  ℕ, zero, suc, ◌+◌, ◌-◌, ◌/◌, ◌%◌, ◌^◌, ◌≤◌, ◌<◌, ◌≡◌, refl, Bool, true, false, ◌&&◌, Option, none,
  some, List, [], ◌∷◌, ◌++◌, length, length-append, get_elem?, ltb, leb, Bool-cases, inl, inr,
  ltb→lt, arith,
}
use vtr.Recording.Ending.{
  Ending, closed, stopped, exited, crashed, recovered, poisoned, names, signal_name, sign_extended,
  digits, decimal_digit, hex_digit, decimal, signed, hex, name_or_number, sig_text, mid_call,
  display,
}

abbrev pub all_ascii : List ℕ → Bool
all_ascii [] = true
all_ascii (b ∷ bs) = ltb b 128 && all_ascii bs

-- At most `n` bytes, all of them ASCII.
pub record IsText (n : ℕ) (bs : List ℕ) : Type 0 where
  pub short : length bs ≤ n
  pub ascii : all_ascii bs ≡ true

all_ascii-append :
    (xs ys : List ℕ) → all_ascii xs ≡ true → all_ascii ys ≡ true → all_ascii (xs ++ ys) ≡ true
all_ascii-append [] ys h k = k
all_ascii-append (x ∷ xs) ys h k = ground (arith, all_ascii-append xs ys)

IsText-append : (m n : ℕ) (xs ys : List ℕ) → IsText m xs → IsText n ys → IsText (m + n) (xs ++ ys)
IsText-append m n xs ys t u = record {
  short = omega (arith, length-append xs ys, t.short, u.short);
  ascii = all_ascii-append xs ys t.ascii u.ascii;
}

IsText-more : (m n : ℕ) (xs : List ℕ) → IsText m xs → m ≤ n → IsText n xs
IsText-more m n xs t le = record { short = omega (arith, t.short); ascii = t.ascii }

literal : (xs : List ℕ) → all_ascii xs ≡ true → IsText (length xs) xs
literal xs h = record { short = omega arith; ascii = h }

one_byte : (b : ℕ) → b < 128 → IsText 1 (b ∷ [])
one_byte b h = record { short = omega arith; ascii = ground arith }

module _ (digit : ℕ → ℕ) (base : ℕ) (below : (v : ℕ) → v % base < base)
    (ascii : (d : ℕ) → d < base → digit d < 128) where
  digits-IsText : (n v : ℕ) → IsText n (digits digit base n v)
  unfolding digits
  digits-IsText zero v = record { short = omega arith; ascii = refl }
  digits-IsText (suc n) v = elim (Bool-cases (ltb v base)) [
    | inl e ↦ rw e (
        IsText-more 1 (suc n) (digit v ∷ []) (one_byte (digit v) (ascii v (ltb→lt v base e)))
          (omega arith))
    | inr e ↦ rw e (
        IsText-more (n + 1) (suc n) (digits digit base n (v / base) ++ digit (v % base) ∷ [])
          (IsText-append n 1 (digits digit base n (v / base)) (digit (v % base) ∷ [])
            (digits-IsText n (v / base)) (one_byte (digit (v % base)) (ascii (v % base) (below v))))
          (omega arith))
  ]

decimal-IsText : (v : ℕ) → IsText 20 (decimal v)
unfolding decimal decimal_digit
decimal-IsText v = digits-IsText decimal_digit 10 (λ u. omega arith) (λ d h. omega arith) 20 v

hex_ascii : (d : ℕ) → d < 16 → hex_digit d < 128
unfolding hex_digit
hex_ascii d h = ground arith

hex-IsText : (v : ℕ) → IsText 18 (hex v)
unfolding hex
hex-IsText v =
    let t = digits-IsText hex_digit 16 (λ u. omega arith) hex_ascii 16 v in
    record { short = omega (arith, t.short); ascii = t.ascii }

signed-IsText : (v : ℕ) → IsText 21 (signed v)
unfolding signed
signed-IsText v = elim (Bool-cases (ltb v (2 ^ 31))) [
  | inl e ↦ rw e (IsText-more 20 21 (decimal v) (decimal-IsText v) (omega arith))
  | inr e ↦ rw e (
      let t = decimal-IsText (2 ^ 32 - v) in
      record { short = omega (arith, t.short); ascii = t.ascii })
]

abbrev all_names : List (List ℕ) → Bool
all_names [] = true
all_names (n ∷ ns) = (leb (length n) 12 && all_ascii n) && all_names ns

name_in :
    (ns : List (List ℕ)) (i : ℕ) (name : List ℕ)
    → all_names ns ≡ true
    → get_elem? ns i ≡ some name
    → IsText 12 name
name_in [] i name h e = cc
name_in (n ∷ ns) zero name h e =
    let same : n ≡ name = some_name e in
    rw (← same) (record { short = ground arith; ascii = ground arith })
  where
    some_name : some n ≡ some name → n ≡ name
    some_name k = cc
name_in (n ∷ ns) (suc i) name h e = name_in ns i name (ground arith) e

name_or_number-IsText :
    (signal : ℕ) (o : Option (List ℕ))
    → signal_name signal ≡ o
    → IsText 28 (name_or_number signal o)
unfolding signal_name
name_or_number-IsText signal none e =
    let t = signed-IsText signal in record { short = omega (arith, t.short); ascii = t.ascii }
name_or_number-IsText signal (some name) e =
    IsText-more 12 28 name
      (name_in names ((sign_extended signal + (2 ^ 64 - 1)) % 2 ^ 64) name refl e) (omega arith)

sig_text-IsText : (signal : ℕ) → IsText 28 (sig_text signal)
unfolding sig_text
sig_text-IsText signal = name_or_number-IsText signal (signal_name signal) refl

mid_call-IsText : (b : Bool) → IsText 17 (mid_call b)
mid_call-IsText true = record { short = omega arith; ascii = refl }
mid_call-IsText false = record { short = omega arith; ascii = refl }

-- Every message has at most 200 bytes.
pub display-IsText : (end : Ending) → IsText 200 (display end)
unfolding display
display-IsText closed = record { short = omega arith; ascii = refl }
display-IsText (stopped signal) =
    let t = sig_text-IsText signal in record { short = omega (arith, t.short); ascii = t.ascii }
display-IsText (exited status) =
    let t = signed-IsText status in record { short = omega (arith, t.short); ascii = t.ascii }
display-IsText (crashed signal code address thread sealed) =
    let last : IsText 1 (b')' ∷ []) = literal (b')' ∷ []) refl in
    let call = IsText-append 17 1 (mid_call sealed) (b')' ∷ []) (mid_call-IsText sealed) last in
    let tid = IsText-append 20 18 (decimal thread) _ (decimal-IsText thread) call in
    let comma =
      IsText-append 9 38 (b',' ∷ b' ' ∷ b't' ∷ b'h' ∷ b'r' ∷ b'e' ∷ b'a' ∷ b'd' ∷ b' ' ∷ []) _
        (literal _ refl) tid in
    let place = IsText-append 18 47 (hex address) _ (hex-IsText address) comma in
    let bracket =
      IsText-append 10 65 (b' ' ∷ b'(' ∷ b'a' ∷ b'd' ∷ b'd' ∷ b'r' ∷ b'e' ∷ b's' ∷ b's' ∷ b' ' ∷ [])
        _ (literal _ refl) place in
    let signal_part = IsText-append 28 75 (sig_text signal) _ (sig_text-IsText signal) bracket in
    IsText-more 114 200 _
      (IsText-append 11 103
        (b'c' ∷ b'r' ∷ b'a' ∷ b's' ∷ b'h' ∷ b'e' ∷ b'd' ∷ b' ' ∷ b'b' ∷ b'y' ∷ b' ' ∷ []) _
        (literal _ refl) signal_part)
      (omega arith)
display-IsText (recovered dropped) =
    let last : IsText 15 (
        b' ' ∷ b'b' ∷ b'y' ∷ b't' ∷ b'e' ∷ b's' ∷ b' ' ∷ b'd' ∷ b'r' ∷ b'o' ∷ b'p' ∷ b'p' ∷ b'e'
        ∷ b'd' ∷ b')' ∷ []) =
      literal
        (b' ' ∷ b'b' ∷ b'y' ∷ b't' ∷ b'e' ∷ b's' ∷ b' ' ∷ b'd' ∷ b'r' ∷ b'o' ∷ b'p' ∷ b'p' ∷ b'e'
          ∷ b'd' ∷ b')' ∷ [])
        refl in
    let count = IsText-append 20 15 (decimal dropped) _ (decimal-IsText dropped) last in
    IsText-more 58 200 _
      (IsText-append 23 35
        (b'r' ∷ b'e' ∷ b'c' ∷ b'o' ∷ b'v' ∷ b'e' ∷ b'r' ∷ b'e' ∷ b'd' ∷ b' ' ∷ b'b' ∷ b'y' ∷ b' '
          ∷ b's' ∷ b'c' ∷ b'a' ∷ b'n' ∷ b'n' ∷ b'i' ∷ b'n' ∷ b'g' ∷ b' ' ∷ b'(' ∷ [])
        _ (literal _ refl) count)
      (omega arith)
display-IsText poisoned = record { short = omega arith; ascii = refl }
