-- ===== src/Base/Errors.antt =====
-- What the source throws, as values.
use Prim.Native.Nat.{ℕ}
use Prim.Native.String.{String}
use mathlib.Core.Logic.{◌⊎◌, inl, inr}
use mathlib.Core.Path.{◌≡◌, refl}

-- One constructor for each `throw` of the source, with what its message names. `out_of_bounds` is
-- no exception: it marks a read or write outside an array, which C++ leaves undefined.
pub data Error : Type 0 where
  too_long : ℕ → Error
  invalid_state : Error
  out_of_bounds : Error
  bogus_crc32 : ℕ → ℕ → Error
  unknown_symbol : String → Error
  bogus_symbol : String → Error
  out_of_range : Error
  bogus_book_type : String → Error
  no_refdata : String → Error
  multiple_data : Error
  external : ℕ → Error

-- A call that has returned, or one that has thrown.
pub data Result {ℓ} (A : Type ℓ) : Type ℓ where
  err : Error → Result A
  ok : A → Result A

infixl 5 ◌>>=◌
abbrev pub ◌>>=◌ {κ ℓ} :
    {Before : Type κ} {After : Type ℓ} → Result Before → (Before → Result After) → Result After
err thrown >>= rest = err thrown
ok value >>= rest = rest value

-- What holds of the value, if the call returns one.
abbrev pub Ensures {κ ℓ} : {A : Type κ} → (A → Type ℓ) → Result A → Type ℓ
Ensures P (err thrown) = Unit
Ensures P (ok value) = P value

pub Ensures-bind {κ ℓ} :
    {A B : Type κ} (P : A → Type ℓ) (Q : B → Type ℓ) (m : Result A) (rest : A → Result B)
    → Ensures P m
    → ((value : A) → P value → Ensures Q (rest value))
    → Ensures Q (m >>= rest)
Ensures-bind P Q (err thrown) rest h k = tt
Ensures-bind P Q (ok value) rest h k = k value h

-- The same where nothing is known of the value.
pub Ensures-then {κ ℓ} :
    {A B : Type κ} (Q : B → Type ℓ) (m : Result A) (rest : A → Result B)
    → ((value : A) → Ensures Q (rest value))
    → Ensures Q (m >>= rest)
Ensures-then Q (err thrown) rest k = tt
Ensures-then Q (ok value) rest k = k value

-- Nothing in particular holds of the value.
pub Ensures-unit {κ ℓ} : {A : Type κ} (m : Result A) → Ensures (λ a. Unit {ℓ}) m
Ensures-unit (err x) = tt
Ensures-unit (ok a) = tt

pub Result-cases {ℓ} :
    {A : Type ℓ} (m : Result A) → ((x : Error) × (m ≡ err x)) ⊎ ((a : A) × (m ≡ ok a))
Result-cases (err x) = inl (x, refl)
Result-cases (ok a) = inr (a, refl)
