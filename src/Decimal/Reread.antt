-- ===== src/Decimal/Reread.antt =====
-- The constructor of `decimal_t` on what `str(precision)` prints.
use kraken_data_recorder.Base.{
  ℕ, zero, suc, ◌+◌, ◌-◌, ◌*◌, ◌^◌, ◌≤◌, ◌<◌, [], ◌∷◌, ◌++◌, append-nil, length, length-append, ◌≡◌,
  ap, sym, ◌∙◌, arith, ok,
}
use kraken_data_recorder.Decimal.{Bytes, Decimal, copy, from_str, str_to, c_max_num_chars}
use kraken_data_recorder.Decimal.Digits.{
  Digits, fit, fit-Digits, length-fit, fit-length, value, value_from,
}
use kraken_data_recorder.Decimal.Layout.{Layout, Layout-Digits}
use kraken_data_recorder.Decimal.Print.{str_to-text_at}
use kraken_data_recorder.Decimal.RoundTrip.{from_str-str_to}
use kraken_data_recorder.Decimal.Token.{Canonical}

-- A number of so many digits, behind a number, is below this.
abbrev tenfold : ℕ → ℕ → ℕ
tenfold zero n = n
tenfold (suc k) n = tenfold k (n * 10)

tenfold-le : (k m n : ℕ) → m ≤ n → tenfold k m ≤ tenfold k n
tenfold-le zero m n h = h
tenfold-le (suc k) m n h = tenfold-le k (m * 10) (n * 10) (omega arith)

tenfold-ge : (k n : ℕ) → n ≤ tenfold k n
tenfold-ge zero n = omega arith
tenfold-ge (suc k) n = omega (arith, tenfold-ge k (n * 10))

tenfold_more : (j k n : ℕ) → j ≤ k → tenfold j n ≤ tenfold k n
tenfold_more zero k n h = tenfold-ge k n
tenfold_more (suc j) zero n h = absurd (omega arith)
tenfold_more (suc j) (suc k) n h = tenfold_more j k (n * 10) (omega arith)

value_from-tenfold : (r : ℕ) (s : Bytes) → Digits s → value_from r s < tenfold (length s) (suc r)
value_from-tenfold r [] h = omega arith
value_from-tenfold r (c ∷ s) h =
    let rest = value_from-tenfold (r * 10 + (c - b'0')) s h.1 in
    let digit : suc (r * 10 + (c - b'0')) ≤ suc r * 10 = ground (arith, h.0) in
    let wider = tenfold-le (length s) (suc (r * 10 + (c - b'0'))) (suc r * 10) digit in
    omega (arith, rest, wider)

-- A number of at most 19 digits is below 2 ^ 64.
value-lt : (s : Bytes) → Digits s → length s ≤ 19 → value s < 2 ^ 64
value-lt s h short = omega (arith, value_from-tenfold 0 s h, tenfold_more (length s) 19 1 short)

fit-fit : (p : ℕ) (f : Bytes) → fit p (fit p f) ≡ fit p f
fit-fit p f = ap (λ n. fit n (fit p f)) (sym (length-fit p f)) ∙ fit-length (fit p f)

-- The decimal prints as a number that the constructor can read again.
pub record IsPrintable (precision : ℕ) (d : Decimal) : Type 0 where
  pub int : Bytes
  pub frac : Bytes
  pub layout : Layout d int frac
  pub canonical : Canonical int
  pub small : value int < 2 ^ 64
  pub fits : length int + suc precision ≤ c_max_num_chars

-- The constructor on the text that a decimal is printed as, at a precision of at most 19, where the
-- decimal prints as a number of at most 48 characters below 2 ^ 64, without leading zeros: it
-- succeeds, and a copy of what it returns prints as that text.
pub from_str-of_str_to :
    (p : ℕ) (d : Decimal)
    → p ≤ 19
    → IsPrintable p d
    → (d' : Decimal) × (from_str (str_to d p) ≡ ok d') × (str_to (copy d') p ≡ str_to d p)
from_str-of_str_to p d few h =
    let digits = fit-Digits p h.frac (Layout-Digits h.layout).1 in
    let text : str_to d p ≡ h.int ++ (b'.' ∷ (fit p h.frac ++ [])) =
      str_to-text_at p h.layout
      ∙ ap (λ (f : Bytes). h.int ++ (b'.' ∷ f)) (sym (append-nil (fit p h.frac))) in
    let (d', read, itself, copied) =
      from_str-str_to p [] h.int (fit p h.frac) [] tt h.canonical digits tt
        (omega (
          arith,
          h.fits,
          length-append h.int (b'.' ∷ (fit p h.frac ++ [])),
          length-append (fit p h.frac) [],
          length-fit p h.frac,
        ))
        h.small (value-lt (fit p h.frac) digits (omega (arith, length-fit p h.frac))) in
    (
      d',
      ap from_str text ∙ read,
      copied
          ∙ ap (λ (f : Bytes). h.int ++ (b'.' ∷ f)) (fit-fit p h.frac)
          ∙ sym (str_to-text_at p h.layout),
    )
