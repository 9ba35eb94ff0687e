-- ===== src/Js.antt =====
-- What the JavaScript layers use of the language: numbers, thrown errors, strings handed to native
-- code, and `Array.prototype.sort`.
pub mod Sort
pub mod Regex
pub mod Pattern
pub mod Text
use rivid.Common.{
  ℕ, suc, ◌<◌, ◌≡◌, ◌⊎◌, inl, inr, refl, Bool, true, false, Bytes, All, codes, arith,
}
use rivid.Engine.Error.{Error, Result, ok, err}

-- An integral JavaScript number; `negsuc n` is -(n + 1).
pub data ℤ : Type 0 where
  pos : ℕ → ℤ
  negsuc : ℕ → ℤ

-- A JavaScript number: an integer, a number with a fraction by the integer that cutting the fraction
-- off leaves, NaN, or an infinity.
pub data Number : Type 0 where
  integer : ℤ → Number
  fractional : ℤ → Number
  not_a_number infinity negative_infinity : Number

-- The errors that the JavaScript layers throw, and those that the native module throws.
pub data Thrown : Type 0 where
  ulid_length : ℕ → Thrown
  ulid_alphabet : Thrown
  invalid_uuid_string : Thrown
  expected_16_bytes : Thrown
  native : Error → Thrown
  native_time_exceeds : ℕ → Thrown
  native_ksuid_timestamp : Number → Thrown
  native_count : ℤ → Thrown

pub data Outcome {ℓ} (A : Type ℓ) : Type ℓ where
  returns : A → Outcome A
  throws : Thrown → Outcome A

infixl 5 ◌>>=◌
abbrev pub ◌>>=◌ {ℓ κ} : {A : Type ℓ} {B : Type κ} → Outcome A → (A → Outcome B) → Outcome B
returns a >>= f = f a
throws e >>= f = throws e

pub Outcome-cases {ℓ} :
    {A : Type ℓ} (r : Outcome A) → ((a : A) × (r ≡ returns a)) ⊎ ((e : Thrown) × (r ≡ throws e))
Outcome-cases (returns a) = inl (a, refl)
Outcome-cases (throws e) = inr (e, refl)

pub bind-eq-returns {ℓ κ} :
    {A : Type ℓ} {B : Type κ} (r : Outcome A) (f : A → Outcome B) {b : B}
    → (r >>= f) ≡ returns b
    → (a : A) × (r ≡ returns a) × (f a ≡ returns b)
bind-eq-returns (returns a) f h = (a, refl, h)
bind-eq-returns (throws e) f h = ground arith

-- `.napi()` of the binding: an engine error is thrown.
abbrev pub napi {ℓ} : {A : Type ℓ} → Result A → Outcome A
napi (ok a) = returns a
napi (err e) = throws (native e)

abbrev pub IsAscii : Bytes → Type 0
IsAscii = All (λ c. c < 128)

-- How Node-API hands a JavaScript string to Rust: as UTF-8, which leaves an ASCII string as it is
-- and writes any other with bytes from 128 on.
pub record Host : Type 0 where
  pub utf8 : Bytes → Bytes
  pub utf8_ascii : (s : Bytes) → IsAscii s → utf8 s ≡ s
  pub ascii_utf8 : (s : Bytes) → IsAscii (utf8 s) → utf8 s ≡ s
