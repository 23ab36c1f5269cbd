-- ===== src/Decimal/Faults.antt =====
-- Where `decimal_t` does not do what it is for.
use kraken_data_recorder.Base.{
  ℕ, zero, suc, ◌+◌, ◌-◌, ◌%◌, ◌^◌, ◌≤◌, ◌<◌, [], ◌∷◌, ◌++◌, ◌≡◌, inl, refl, ap, sym, ◌∙◌, arith,
  length, true, false, ◌==◌, append-nil, length-append, length-replicate, ok, err, invalid_state,
  out_of_bounds, ◌>>=◌, Result, ltb,
}
use kraken_data_recorder.Decimal.{
  Bytes, is_digit, static_zero, Decimal, copy, str, str_to, str_view, read_view, from_str,
  normalize, c_max_num_chars, c_zero_chars, is_zero, to_int, int_part, frac_part, scan, step,
  before_digit, before_decimal, keep, Dst, find,
}
use kraken_data_recorder.Decimal.Digits.{
  Digits, zeros, fit, fit-nil, value, to_int-value, zeros-Digits, int_part-point, frac_part-point,
}
use kraken_data_recorder.Decimal.Layout.{Layout, whole, static, str-static}
use kraken_data_recorder.Decimal.Print.{str_to-text_at}
use kraken_data_recorder.Decimal.Token.{
  written, one, token, room, from_str-token, scan_kept, scan-Digits, length-token,
}
use kraken_data_recorder.Decimal.Trim.{normalize-static}

-- `str_view` of a decimal that still views the static "0.0": at two places or more it reads
-- behind the three characters of that array.
pub str_view-static_zero :
    (d : Decimal) (p : ℕ) → d.view ≡ static_zero → 2 ≤ p → str_view d p ≡ err out_of_bounds
unfolding str_view str find read_view
str_view-static_zero d p v h = rw (v, str_view, v) (ground arith)

is_zero_by_parts :
    (view f : Bytes)
    → int_part view ≡ zeros 1
    → frac_part view ≡ f
    → to_int f ≡ 0
    → is_zero view ≡ true
unfolding is_zero
is_zero_by_parts view f ei ef e = ground (arith, ei, ef, e, to_int-value (zeros 1) (zeros-Digits 1))

-- A fraction that is a multiple of 2 ^ 64 is taken for zero, whatever its digits.
pub from_str-wrapped_fraction :
    (f : Bytes)
    → Digits f
    → value f % 2 ^ 64 ≡ 0
    → length f ≤ 46
    → (d : Decimal) × (from_str (b'0' ∷ b'.' ∷ f) ≡ ok d) × (str d ≡ c_zero_chars)
from_str-wrapped_fraction f hf wraps le =
    (normalize (written w k), read, str-static _ (normalize-static w k taken_for_zero))
  where
    w : Bytes
    w = b'0' ∷ b'.' ∷ f

    k : ℕ
    k = room (zeros 1) f

    whole_token : token [] (zeros 1) f [] ≡ w
    whole_token = ap (λ (s : Bytes). b'0' ∷ b'.' ∷ s) (append-nil f)

    read : from_str w ≡ ok (normalize (written w k))
    read =
        ap from_str (sym whole_token)
        ∙ from_str-token [] (zeros 1) f [] tt (inl (refl, refl)) hf tt
            (omega (arith, length-token [] (zeros 1) f []))

    taken_for_zero : is_zero w ≡ true
    taken_for_zero =
        is_zero_by_parts w f (int_part-point (zeros 1) f (zeros-Digits 1))
          (frac_part-point (zeros 1) f (zeros-Digits 1)) (to_int-value f hf ∙ wraps)

-- A number with no point is refused if anything at all stands behind it, a space included; behind
-- a fraction the constructor lets everything pass.
pub from_str-whole_number :
    (c : ℕ) (i post : Bytes) (ch : ℕ)
    → is_digit c ≡ true
    → (c == b'0') ≡ false
    → Digits i
    → is_digit ch ≡ false
    → (ch == b'.') ≡ false
    → length (c ∷ (i ++ (ch ∷ post))) ≤ c_max_num_chars
    → from_str (c ∷ (i ++ (ch ∷ post))) ≡ err invalid_state
unfolding from_str
from_str-whole_number c i post ch hc n hi nd np le =
    let k = 47 - length i in
    let places : c_max_num_chars ≡ suc (length i + k) =
      omega (arith, length-append i (ch ∷ post)) in
    let fits : ltb c_max_num_chars (length (c ∷ (i ++ (ch ∷ post)))) ≡ false = ground arith in
    rw fits (
      ap (λ (r : Result Dst). r >>= λ w. ok (normalize w))
        (ap (λ (m : ℕ). scan before_digit (c ∷ (i ++ (ch ∷ post))) (written [] m)) places
          ∙ scan_kept before_digit before_decimal c (i ++ (ch ∷ post)) [] (length i + k)
              (first c (i ++ (ch ∷ post)) _ hc n)
          ∙ scan-Digits before_decimal i (ch ∷ post) (c ∷ []) (length i + k) k tt hi refl
          ∙ refused ch post (written (c ∷ i) k) nd np))
  where
    first :
        (c : ℕ) (s : Bytes) (w : Dst)
        → is_digit c ≡ true
        → (c == b'0') ≡ false
        → step before_digit c s w ≡ keep before_decimal w c
    first c s w h n = rw (h, n)

    refused :
        (ch : ℕ) (s : Bytes) (w : Dst)
        → is_digit ch ≡ false
        → (ch == b'.') ≡ false
        → scan before_decimal (ch ∷ s) w ≡ err invalid_state
    refused ch s w h n = rw (h, n)

zeros_read :
    (n : ℕ)
    → scan before_digit (zeros (suc n)) (written [] c_max_num_chars)
      ≡ ok (written (one b'0') (c_max_num_chars - 1))
unfolding scan
zeros_read zero = refl
zeros_read (suc n) = zeros_read n

-- A zero with no point, such as "0": printed at some precision it is "0.000", but each copy of it
-- prints "000.000", since a copy views its own array at the size of "0.0".
pub str_to-copy_zero :
    (n p : ℕ)
    → n < c_max_num_chars
    → (d : Decimal) × (from_str (zeros (suc n)) ≡ ok d)
      × (str_to d p ≡ b'0' ∷ b'.' ∷ zeros p)
      × (str_to (copy d) p ≡ b'0' ∷ b'0' ∷ b'0' ∷ b'.' ∷ zeros p)
unfolding from_str copy
str_to-copy_zero n p h = (
  read,
  rw fits (rw (zeros_read n)),
  str_to-text_at {d = read} {i = zeros 1} {f = zeros 1} p (static refl refl refl)
      ∙ ap (λ (s : Bytes). b'0' ∷ b'.' ∷ s) (filled p),
  str_to-text_at {d = copy read} {i = zeros 3} {f = []} p copied
      ∙ ap (λ (s : Bytes). b'0' ∷ b'0' ∷ b'0' ∷ b'.' ∷ s) (fit-nil p),
)
  where
    read : Decimal
    read = normalize (written (one b'0') (c_max_num_chars - 1))

    fits : ltb c_max_num_chars (length (zeros (suc n))) ≡ false
    fits = ground (arith, length-replicate {A = ℕ} n b'0')

    filled : (p : ℕ) → fit p (zeros 1) ≡ zeros p
    filled zero = refl
    filled (suc p) = ap (◌∷◌ b'0') (fit-nil p)

    copied : Layout (copy read) (zeros 3) []
    copied = whole b'0' 44 (zeros-Digits 3) refl refl refl
