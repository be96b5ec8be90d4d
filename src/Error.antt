-- ===== src/Error.antt =====
-- vtr-rs/src/error.rs: the error type, `Result` and the `?` operator.
use vtr.Prelude.{ℕ, String, Bool, true, false, ◌≡◌, refl, if◌then◌else◌}

-- An I/O error carries the operating system's text.
pub data Error : Type 0 where
  corrupt : String → Error
  unsupported_version : String → ℕ → ℕ → ℕ → ℕ → Error
  invalid : String → Error
  state : String → Error
  io : String → Error
  checksum : ℕ → Error
  codec : String → Error
  recording : String → Error

pub data Result {ℓ} (A : Type ℓ) : Type ℓ where
  ok : A → Result A
  err : Error → Result A

infixl 5 ◌>>=◌ ◌>>◌
abbrev pub ◌>>=◌ {ℓ κ} : {X : Type ℓ} {Y : Type κ} → Result X → (X → Result Y) → Result Y
err e >>= next = err e
ok x >>= next = next x

abbrev pub ◌>>◌ {ℓ κ} : {X : Type ℓ} {Y : Type κ} → Result X → Result Y → Result Y
first >> second = first >>= λ _. second

pub >>=-eq-ok {ℓ κ} :
    {X : Type ℓ} {Y : Type κ} (first : Result X) (next : X → Result Y) {y : Y}
    → (first >>= next) ≡ ok y
    → (x : X) × (first ≡ ok x) × (next x ≡ ok y)
>>=-eq-ok (err e) next h = cc
>>=-eq-ok (ok x) next h = (x, refl, h)

-- An early return of an error, not taken.
pub guard_ok {ℓ} :
    {X : Type ℓ} (c : Bool) (e : Error) (m : Result X) {y : X}
    → (if c then err e else m) ≡ ok y
    → (c ≡ false) × (m ≡ ok y)
guard_ok true e m h = cc
guard_ok false e m h = (refl, h)

pub ok_injective {ℓ} : {X : Type ℓ} {x y : X} → ok x ≡ ok y → x ≡ y
ok_injective h = cc
