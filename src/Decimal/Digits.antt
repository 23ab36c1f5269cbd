-- ===== src/Decimal/Digits.antt =====
-- Digit strings: where the parts of a decimal's text are, and the number that `to_int` computes.
use kraken_data_recorder.Base.{
  ℕ, zero, suc, ◌+◌, ◌-◌, ◌*◌, ◌%◌, ◌^◌, true, false, [], ◌∷◌, ◌++◌, none, some, ◌≡◌, refl, ap, ◌∙◌,
  arith, length, take, drop, replicate, All, ◌==◌,
}
use kraken_data_recorder.Decimal.{Bytes, is_digit, find, int_part, frac_part, to_int_from, to_int}

abbrev pub Digits : Bytes → Type 0
Digits = All (λ ch. is_digit ch ≡ true)

abbrev pub zeros : ℕ → Bytes
zeros n = replicate n b'0'

-- A fraction at a given number of digits: cut there, or filled up with '0'.
abbrev pub fit : ℕ → Bytes → Bytes
fit zero f = []
fit (suc n) [] = b'0' ∷ fit n []
fit (suc n) (c ∷ f) = c ∷ fit n f

-- The number that a digit string stands for, after what has been read.
abbrev pub value_from : ℕ → Bytes → ℕ
value_from r [] = r
value_from r (ch ∷ s) = value_from (r * 10 + (ch - b'0')) s

abbrev pub value : Bytes → ℕ
value = value_from 0

pub zeros-Digits : (n : ℕ) → Digits (zeros n)
zeros-Digits zero = tt
zeros-Digits (suc n) = (refl, zeros-Digits n)

pub fit-Digits : (n : ℕ) (f : Bytes) → Digits f → Digits (fit n f)
fit-Digits zero f h = tt
fit-Digits (suc n) [] h = (refl, fit-Digits n [] tt)
fit-Digits (suc n) (c ∷ f) h = (h.0, fit-Digits n f h.1)

pub fit-nil : (n : ℕ) → fit n [] ≡ zeros n
fit-nil zero = refl
fit-nil (suc n) = ap (◌∷◌ b'0') (fit-nil n)

pub fit-length : (f : Bytes) → fit (length f) f ≡ f
fit-length [] = refl
fit-length (c ∷ f) = ap (◌∷◌ c) (fit-length f)

pub length-fit : (n : ℕ) (f : Bytes) → length (fit n f) ≡ n
length-fit zero f = refl
length-fit (suc n) [] = ap suc (length-fit n [])
length-fit (suc n) (c ∷ f) = ap suc (length-fit n f)

digit-ne-point : (c : ℕ) → is_digit c ≡ true → (c == b'.') ≡ false
digit-ne-point c h = ground arith

pub find-Digits : (i : Bytes) → Digits i → find b'.' i ≡ none
unfolding find
find-Digits [] h = refl
find-Digits (c ∷ i) h = rw (digit-ne-point c h.0, find-Digits i h.1)

pub find-point : (i f : Bytes) → Digits i → find b'.' (i ++ (b'.' ∷ f)) ≡ some (length i)
unfolding find
find-point [] f h = refl
find-point (c ∷ i) f h = rw (digit-ne-point c h.0, find-point i f h.1)

take-length : (i f : Bytes) → take (length i) (i ++ f) ≡ i
take-length [] f = refl
take-length (c ∷ i) f = ap (◌∷◌ c) (take-length i f)

drop-length : (i f : Bytes) (c : ℕ) → drop (suc (length i)) (i ++ (c ∷ f)) ≡ f
drop-length [] f c = refl
drop-length (x ∷ i) f c = drop-length i f c

pub int_part-Digits : (i : Bytes) → Digits i → int_part i ≡ i
unfolding int_part
int_part-Digits i h = rw (find-Digits i h, int_part)

pub frac_part-Digits : (i : Bytes) → Digits i → frac_part i ≡ []
unfolding frac_part
frac_part-Digits i h = rw (find-Digits i h, frac_part)

pub int_part-point : (i f : Bytes) → Digits i → int_part (i ++ (b'.' ∷ f)) ≡ i
unfolding int_part
int_part-point i f h = rw (find-point i f h, int_part) (take-length i (b'.' ∷ f))

pub frac_part-point : (i f : Bytes) → Digits i → frac_part (i ++ (b'.' ∷ f)) ≡ f
unfolding frac_part
frac_part-point i f h = rw (find-point i f h, frac_part) (drop-length i f b'.')

to_int-round :
    (r ch : ℕ)
    → is_digit ch ≡ true
    → ((r % 2 ^ 64) * 10 % 2 ^ 64 + (ch + 2 ^ 64 - b'0')) % 2 ^ 64 ≡ (r * 10 + (ch - b'0')) % 2 ^ 64
to_int-round r ch h = ground arith

to_int_from-value :
    (r : ℕ) (s : Bytes) → Digits s → to_int_from (r % 2 ^ 64) s ≡ value_from r s % 2 ^ 64
unfolding to_int_from
to_int_from-value r [] h = refl
to_int_from-value r (ch ∷ s) h =
    ap (λ (k : ℕ). to_int_from k s) (to_int-round r ch h.0)
    ∙ to_int_from-value (r * 10 + (ch - b'0')) s h.1

-- `to_int` is the number modulo 2 ^ 64.
pub to_int-value : (s : Bytes) → Digits s → to_int s ≡ value s % 2 ^ 64
unfolding to_int
to_int-value s h = to_int_from-value 0 s h
