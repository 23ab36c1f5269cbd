-- ===== src/Decimal/Scan.antt =====
-- The array that the loop of `decimal_t`'s constructor leaves, for any token.
use kraken_data_recorder.Base.{
  ℕ, zero, suc, ◌+◌, ◌≤◌, true, [], ◌∷◌, ◌++◌, ◌≡◌, ◌⊎◌, inl, inr, refl, arith, length, Bool-cases,
  ok, err, invalid_state, Result, ◌>>=◌, length-append, ◌==◌,
}
use kraken_data_recorder.Decimal.{
  Bytes, is_digit, State, before_digit, before_decimal, after_decimal, after_value, Dst,
  leading_zero, keep, step, scan,
}
use kraken_data_recorder.Decimal.Digits.{Digits}
use kraken_data_recorder.Decimal.Token.{written, one, keep-written}
use kraken_data_recorder.Decimal.Number.{
  Number, Digits-Number, Digits-append, Number-append, Number-append_point,
}

-- What has been kept, in each state of the loop.
abbrev Shape : State → Bytes → Type 0
Shape before_digit out = Digits out
Shape before_decimal out = Digits out
Shape after_decimal out = Number out
Shape after_value out = Number out

Shape-Number : (state : State) (out : Bytes) → Shape state out → Number out
Shape-Number before_digit out h = Digits-Number out h
Shape-Number before_decimal out h = Digits-Number out h
Shape-Number after_decimal out h = h
Shape-Number after_value out h = h

-- A round of the loop keeps the character, in the next place of the array, or does not.
abbrev pub Kept : ℕ → Bytes → ℕ → Result (State × Dst) → Type 0
Kept c out k (err x) = x ≡ invalid_state
Kept c out k (ok (next, w)) =
    ((w ≡ written (out ++ one c) k) × Shape next (out ++ one c))
    ⊎ ((w ≡ written out (suc k)) × Shape next out)

Digits-append_one : (c : ℕ) (out : Bytes) → Digits out → is_digit c ≡ true → Digits (out ++ one c)
Digits-append_one c out h d = Digits-append out (one c) h (d, tt)

keep-Kept :
    (next : State) (c : ℕ) (out : Bytes) (k : ℕ)
    → Shape next (out ++ one c)
    → Kept c out k (keep next (written out (suc k)) c)
keep-Kept next c out k h = rw (keep-written next out k c) (inl (refl, h))

first-Kept :
    (c : ℕ) (s out : Bytes) (k : ℕ)
    → Digits out
    → is_digit c ≡ true
    → Kept c out k (leading_zero c s (written out (suc k)))
unfolding leading_zero
first-Kept c [] out k h d =
    keep-Kept after_value c out k (Digits-Number (out ++ one c) (Digits-append_one c out h d))
first-Kept c (next ∷ s) out k h d = elim (Bool-cases (next == b'.')) [
  | inl point ↦ rw point (keep-Kept before_decimal c out k (Digits-append_one c out h d))
  | inr other ↦ rw other (inr (refl, h))
]

step-Kept :
    (state : State) (c : ℕ) (s out : Bytes) (k : ℕ)
    → Shape state out
    → Kept c out k (step state c s (written out (suc k)))
unfolding step
step-Kept before_digit c s out k h = elim (Bool-cases (is_digit c)) [
  | inl d ↦ elim (Bool-cases (c == b'0')) [
    | inl z ↦ rw (d, z) (first-Kept c s out k h d)
    | inr z ↦ rw (d, z) (keep-Kept before_decimal c out k (Digits-append_one c out h d))
  ]
  | inr d ↦ rw d (inr (refl, h))
]
step-Kept before_decimal c s out k h = elim (Bool-cases (is_digit c)) [
  | inl d ↦ rw d (keep-Kept before_decimal c out k (Digits-append_one c out h d))
  | inr d ↦ elim (Bool-cases (c == b'.')) [
    | inl point ↦
        let e : c ≡ b'.' = ground arith in
        rw (d, point) (keep-Kept after_decimal c out k (rw e (Number-append_point out h)))
    | inr other ↦ rw (d, other) refl
  ]
]
step-Kept after_decimal c s out k h = elim (Bool-cases (is_digit c)) [
  | inl d ↦ rw d (keep-Kept after_decimal c out k (Number-append out (one c) h (d, tt)))
  | inr d ↦ rw d (inr (refl, h))
]
step-Kept after_value c s out k h = inr (refl, h)

-- The array after the loop: what was kept, and '0's up to the array's size.
pub record Filled (size : ℕ) (w : Dst) : Type 0 where
  pub out : Bytes
  pub free : ℕ
  pub array : w ≡ written out free
  pub within : length out + free ≡ size
  pub number : Number out

abbrev pub Scanned : ℕ → Result Dst → Type 0
Scanned size (err x) = x ≡ invalid_state
Scanned size (ok w) = Filled size w

pub scan-Scanned :
    (s : Bytes) (state : State) (out : Bytes) (k size : ℕ)
    → length s ≤ k
    → length out + k ≡ size
    → Shape state out
    → Scanned size (scan state s (written out k))
unfolding scan
scan-Scanned [] state out k size le e h = record {
  out = out;
  free = k;
  array = refl;
  within = e;
  number = Shape-Number state out h;
}
scan-Scanned (c ∷ s) state out zero size le e h = absurd (omega arith)
scan-Scanned (c ∷ s) state out (suc k) size le e h =
    continue (step state c s (written out (suc k))) (step-Kept state c s out k h) (scan-Scanned s)
  where
    continue :
        (r : Result (State × Dst))
        → Kept c out k r
        → ((state : State) (out : Bytes) (k size : ℕ)
            → length s ≤ k
            → length out + k ≡ size
            → Shape state out
            → Scanned size (scan state s (written out k)))
        → Scanned size (r >>= λ next. scan next.0 s next.1)
    continue (err x) kept later = kept
    continue (ok (next, w)) (inl (e1, sh)) later = rw e1 (
        later next (out ++ one c) k size (omega arith) (omega (arith, length-append out (one c)))
          sh)
    continue (ok (next, w)) (inr (e1, sh)) later =
        rw e1 (later next out (suc k) size (omega arith) (omega arith) sh)
