-- ===== src/Sides/Printed.antt =====
-- Decimals that print alike: no comparison tells them apart, where the precision holds all their
-- digits.
use kraken_data_recorder.Base.{
  ℕ, ◌-◌, ◌+◌, ◌*◌, ◌^◌, ◌≤◌, ◌<◌, [], ◌∷◌, ◌++◌, length, compare, ◌≡◌, refl, ap, sym, ◌∙◌, arith,
}
use kraken_data_recorder.Decimal.{Bytes, Decimal, three_way, lt, gt, eq, str_to}
use kraken_data_recorder.Decimal.Digits.{fit, fit-Digits, zeros, value, value_from}
use kraken_data_recorder.Decimal.Layout.{Layout, static, Layout-Digits}
use kraken_data_recorder.Decimal.Order.{
  number, three_way-number, lt-three_way, gt-three_way, eq-three_way,
}
use kraken_data_recorder.Decimal.Print.{str_to-text_at}
use kraken_data_recorder.Sides.{c_zero}
use kraken_data_recorder.Sides.Checksum.{without_point, without_point-text}

-- All digits of the decimal stand in what it prints.
pub record IsExact (precision : ℕ) (d : Decimal) : Type 0 where
  pub int : Bytes
  pub frac : Bytes
  pub layout : Layout d int frac
  pub small : value int < 2 ^ 64
  pub short : length frac ≤ precision

pub record PrintAlike (precision : ℕ) (d d' : Decimal) : Type 0 where
  pub left : IsExact precision d
  pub right : IsExact precision d'
  pub text : str_to d precision ≡ str_to d' precision

value_from-append : (r : ℕ) (s t : Bytes) → value_from r (s ++ t) ≡ value_from (value_from r s) t
value_from-append r [] t = refl
value_from-append r (c ∷ s) t = value_from-append (r * 10 + (c - b'0')) s t

-- The number that is printed, without its point.
abbrev printed : ℕ → Decimal → ℕ
printed precision d = value (without_point (str_to d precision))

number-printed : (p : ℕ) (d : Decimal) (h : IsExact p d) → number p h.int h.frac ≡ printed p d
number-printed p d h =
    let digits = Layout-Digits h.layout in
    sym (
      ap (λ s. value (without_point s)) (str_to-text_at p h.layout)
      ∙ ap value (without_point-text h.int (fit p h.frac) digits.0 (fit-Digits p h.frac digits.1))
      ∙ value_from-append 0 h.int (fit p h.frac))

three_way-printed :
    (p : ℕ) (a b : Decimal)
    → IsExact p a
    → IsExact p b
    → three_way a b ≡ compare (printed p a) (printed p b)
three_way-printed p a b ha hb =
    three_way-number p ha.layout hb.layout ha.small hb.small ha.short hb.short
    ∙ rw (number-printed p a ha, number-printed p b hb) refl

-- The comparison of decimals that print alike.
pub three_way-PrintAlike :
    (p : ℕ) (a a' b b' : Decimal)
    → PrintAlike p a a'
    → PrintAlike p b b'
    → three_way a b ≡ three_way a' b'
three_way-PrintAlike p a a' b b' ha hb =
    three_way-printed p a b ha.left hb.left
    ∙ rw (ha.text, hb.text) refl
    ∙ sym (three_way-printed p a' b' ha.right hb.right)

module _ (p : ℕ) (a a' b b' : Decimal) (ha : PrintAlike p a a') (hb : PrintAlike p b b') where
  pub lt-PrintAlike : lt a b ≡ lt a' b'
  lt-PrintAlike = lt-three_way a b a' b' (three_way-PrintAlike p a a' b b' ha hb)

  pub gt-PrintAlike : gt a b ≡ gt a' b'
  gt-PrintAlike = gt-three_way a b a' b' (three_way-PrintAlike p a a' b b' ha hb)

  pub eq-PrintAlike : eq a b ≡ eq a' b'
  eq-PrintAlike = eq-three_way a b a' b' (three_way-PrintAlike p a a' b b' ha hb)

pub c_zero-PrintAlike : (p : ℕ) → 1 ≤ p → PrintAlike p c_zero c_zero
c_zero-PrintAlike p h = record { left = exact; right = exact; text = refl }
  where
    exact : IsExact p c_zero
    exact = record {
      int = zeros 1;
      frac = zeros 1;
      layout = static refl refl refl;
      small = omega arith;
      short = omega arith;
    }
