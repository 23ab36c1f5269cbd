-- ===== src/Decimal/Order.antt =====
-- `operator<=>`: the comparison of two decimals is the comparison of two numbers.
use kraken_data_recorder.Base.{
  ℕ, zero, suc, ◌+◌, ◌-◌, ◌*◌, ◌^◌, ◌≤◌, ◌<◌, [], ◌∷◌, ◌≡◌, inl, inr, refl, ap, sym, ◌∙◌, arith,
  length, true, ◌==◌, ltb, compare, Ordering,
}
use native.Mathlib.Nat.{mod-eq_of_lt}
use kraken_data_recorder.Decimal.{
  Bytes, is_digit, Decimal, str, three_way, lt, gt, eq, compare_views, compare_from, int_part,
  frac_part, to_int, max_ℕ, digit_at, c_max_num_chars,
}
use kraken_data_recorder.Decimal.Digits.{
  Digits, fit, length-fit, fit-Digits, value, value_from, to_int-value, int_part-Digits,
  int_part-point, frac_part-Digits, frac_part-point,
}
use kraken_data_recorder.Decimal.Layout.{Layout, Layout-Digits, Shows, Layout-Shows}

abbrev rest : Bytes → Bytes
rest [] = []
rest (c ∷ f) = f

digit_at-suc : (f : Bytes) (idx : ℕ) → digit_at f (suc idx) ≡ digit_at (rest f) idx
digit_at-suc [] idx = ground arith
digit_at-suc (c ∷ f) idx = ground arith

compare_from-suc :
    (n idx : ℕ) (f g : Bytes) → compare_from n (suc idx) f g ≡ compare_from n idx (rest f) (rest g)
unfolding compare_from
compare_from-suc zero idx f g = refl
compare_from-suc (suc n) idx f g =
    ground (arith, digit_at-suc f idx, digit_at-suc g idx, compare_from-suc n (suc idx) f g)

compare_from-nil : (n : ℕ) → compare_from n 0 [] [] ≡ Ordering.eq
unfolding compare_from
compare_from-nil zero = refl
compare_from-nil (suc n) = compare_from-suc n 0 [] [] ∙ compare_from-nil n

fit-suc : (n : ℕ) (f : Bytes) → fit (suc n) f ≡ digit_at f 0 ∷ fit n (rest f)
fit-suc n [] = refl
fit-suc n (c ∷ f) = ap (λ (x : ℕ). x ∷ fit n f) (ground arith)

-- A number with a smaller head stays smaller, whatever digits follow.
value_from-lt :
    (r q : ℕ) (s t : Bytes)
    → Digits s
    → Digits t
    → length s ≡ length t
    → r < q
    → value_from r s < value_from q t
value_from-lt r q [] [] hs ht e h = h
value_from-lt r q [] (d ∷ t) hs ht e h = absurd (omega arith)
value_from-lt r q (c ∷ s) [] hs ht e h = absurd (omega arith)
value_from-lt r q (c ∷ s) (d ∷ t) hs ht e h =
    value_from-lt (r * 10 + (c - b'0')) (q * 10 + (d - b'0')) s t hs.1 ht.1 (omega arith)
      (ground (arith, hs.0, ht.0))

fits : (n : ℕ) (f : Bytes) → Digits f → Digits (fit n f)
fits n f h = fit-Digits n f h

same_length : (n : ℕ) (f g : Bytes) → length (fit n f) ≡ length (fit n g)
same_length n f g = length-fit n f ∙ sym (length-fit n g)

rest-Digits : (f : Bytes) → Digits f → Digits (rest f)
rest-Digits [] h = tt
rest-Digits (c ∷ f) h = h.1

digit_at-digit : (f : Bytes) → Digits f → is_digit (digit_at f 0) ≡ true
digit_at-digit [] h = refl
digit_at-digit (c ∷ f) h = ground (arith, h.0)

-- Digit by digit is by value, at any number of digits.
compare_from-value :
    (n r : ℕ) (f g : Bytes)
    → Digits f
    → Digits g
    → compare_from n 0 f g ≡ compare (value_from r (fit n f)) (value_from r (fit n g))
unfolding compare_from
compare_from-value zero r f g hf hg = ground arith
compare_from-value (suc n) r f g hf hg =
    let c = digit_at f 0 in
    let d = digit_at g 0 in
    let f' = fit n (rest f) in
    let g' = fit n (rest g) in
    let df = fits n (rest f) (rest-Digits f hf) in
    let dg = fits n (rest g) (rest-Digits g hg) in
    rw (fit-suc n f, fit-suc n g)
      (ground (
        compare_from-suc n 0 f g,
        arith,
        digit_at-digit f hf,
        digit_at-digit g hg,
        compare_from-value n (r * 10 + (c - b'0')) (rest f) (rest g) (rest-Digits f hf)
            (rest-Digits g hg),
        value_from-lt (r * 10 + (c - b'0')) (r * 10 + (d - b'0')) f' g' df dg
            (same_length n (rest f) (rest g)),
        value_from-lt (r * 10 + (d - b'0')) (r * 10 + (c - b'0')) g' f' dg df
            (same_length n (rest g) (rest f)),
      ))

no_digits : (f : Bytes) → length f ≤ 0 → f ≡ []
no_digits [] h = refl
no_digits (c ∷ f) h = absurd (omega arith)

length-rest-le : (n : ℕ) (f : Bytes) → length f ≤ suc n → length (rest f) ≤ n
length-rest-le n [] h = omega arith
length-rest-le n (c ∷ f) h = omega arith

-- More rounds than digits change nothing.
compare_from_enough :
    (n m : ℕ) (f g : Bytes)
    → length f ≤ n
    → length g ≤ n
    → length f ≤ m
    → length g ≤ m
    → compare_from n 0 f g ≡ compare_from m 0 f g
unfolding compare_from
compare_from_enough zero m f g a b c d =
    rw (no_digits f a, no_digits g b) (sym (compare_from-nil m))
compare_from_enough (suc n) zero f g a b c d =
    rw (no_digits f c, no_digits g d) (compare_from-nil (suc n))
compare_from_enough (suc n) (suc m) f g a b c d = ground (
  arith,
  compare_from-suc n 0 f g,
  compare_from-suc m 0 f g,
  compare_from_enough n m (rest f) (rest g) (length-rest-le n f a) (length-rest-le n g b)
      (length-rest-le m f c) (length-rest-le m g d),
)

-- The text's number times 10 ^ k, with the part before the point as `to_int` has it.
abbrev scaled : ℕ → Bytes → ℕ
scaled k s = value_from (to_int (int_part s)) (fit k (frac_part s))

compare_views-scaled :
    (k : ℕ) (s t : Bytes)
    → Digits (frac_part s)
    → Digits (frac_part t)
    → length (frac_part s) ≤ k
    → length (frac_part t) ≤ k
    → compare_views s t ≡ compare (scaled k s) (scaled k t)
unfolding compare_views
compare_views-scaled k s t hs ht ls lt =
    let f = frac_part s in
    let g = frac_part t in
    let i = to_int (int_part s) in
    let j = to_int (int_part t) in
    let f' = fit-Digits k f hs in
    let g' = fit-Digits k g ht in
    ground (
      arith,
      compare_from_enough (max_ℕ (length f) (length g)) k f g (ground arith) (ground arith) ls lt,
      compare_from-value k i f g hs ht,
      value_from-lt i j (fit k f) (fit k g) f' g' (same_length k f g),
      value_from-lt j i (fit k g) (fit k f) g' f' (same_length k g f),
    )

-- The place of a decimal in the order.
pub rank : Decimal → ℕ
rank d = scaled c_max_num_chars (str d)

-- The text of a decimal has only digits behind its point, and no more than the array has room for.
pub record IsDecimal (d : Decimal) : Type 0 where
  pub digits : Digits (frac_part (str d))
  pub short : length (frac_part (str d)) ≤ c_max_num_chars

pub three_way-rank :
    (a b : Decimal) → IsDecimal a → IsDecimal b → three_way a b ≡ compare (rank a) (rank b)
unfolding three_way rank
three_way-rank a b ha hb =
    compare_views-scaled c_max_num_chars (str a) (str b) ha.digits hb.digits ha.short hb.short

pub Shows-parts : (s i f : Bytes) → Digits i → Shows s i f → (int_part s ≡ i) × (frac_part s ≡ f)
Shows-parts s i f h (inl e) = rw e (int_part-point i f h, frac_part-point i f h)
Shows-parts s i f h (inr e) = rw (e.0, e.1) (int_part-Digits i h, frac_part-Digits i h)

-- The number that the digits stand for, times 10 ^ k.
abbrev pub number : ℕ → Bytes → Bytes → ℕ
number k i f = value_from (value i) (fit k f)

scaled-number :
    {d : Decimal} {i f : Bytes} (k : ℕ)
    → Layout d i f
    → value i < 2 ^ 64
    → scaled k (str d) ≡ number k i f
scaled-number {d} {i} {f} k h b =
    let digits = (Layout-Digits h).0 in
    let parts = Shows-parts (str d) i f digits (Layout-Shows h) in
    rw (parts.0, parts.1, to_int-value i digits, mod-eq_of_lt b)

pub Layout-IsDecimal :
    {d : Decimal} {i f : Bytes} → Layout d i f → length f ≤ c_max_num_chars → IsDecimal d
Layout-IsDecimal {d} {i} {f} h b =
    let parts = Shows-parts (str d) i f (Layout-Digits h).0 (Layout-Shows h) in
    record { digits = rw parts.1 (Layout-Digits h).1; short = rw parts.1 b }

-- Where the digits before the points stand for numbers below 2 ^ 64, `operator<=>` compares the
-- numbers that the two decimals stand for, brought to any common number of places that holds both.
pub three_way-number :
    {a b : Decimal} {i f j g : Bytes} (k : ℕ)
    → Layout a i f
    → Layout b j g
    → value i < 2 ^ 64
    → value j < 2 ^ 64
    → length f ≤ k
    → length g ≤ k
    → three_way a b ≡ compare (number k i f) (number k j g)
unfolding three_way
three_way-number {a} {b} {i} {f} {j} {g} k la lb vi vj lf lg =
    let pa = Shows-parts (str a) i f (Layout-Digits la).0 (Layout-Shows la) in
    let pb = Shows-parts (str b) j g (Layout-Digits lb).0 (Layout-Shows lb) in
    compare_views-scaled k (str a) (str b) (rw pa.1 (Layout-Digits la).1)
      (rw pb.1 (Layout-Digits lb).1) (rw pa.1 lf) (rw pb.1 lg)
    ∙ rw (scaled-number k la vi, scaled-number k lb vj)

pub lt-rank : (a b : Decimal) → IsDecimal a → IsDecimal b → lt a b ≡ ltb (rank a) (rank b)
unfolding lt
lt-rank a b ha hb = rw (three_way-rank a b ha hb, lt)

pub gt-rank : (a b : Decimal) → IsDecimal a → IsDecimal b → gt a b ≡ ltb (rank b) (rank a)
unfolding gt
gt-rank a b ha hb = rw (three_way-rank a b ha hb, gt) (ground arith)

pub eq-rank : (a b : Decimal) → IsDecimal a → IsDecimal b → eq a b ≡ (rank a == rank b)
unfolding eq
eq-rank a b ha hb = rw (three_way-rank a b ha hb, eq)

-- The operators that are made of `operator<=>`.
module _ (a b c d : Decimal) (same : three_way a b ≡ three_way c d) where
  pub lt-three_way : lt a b ≡ lt c d
  unfolding lt
  lt-three_way = rw (lt, same) refl

  pub gt-three_way : gt a b ≡ gt c d
  unfolding gt
  gt-three_way = rw (gt, same) refl

  pub eq-three_way : eq a b ≡ eq c d
  unfolding eq
  eq-three_way = rw (eq, same) refl
