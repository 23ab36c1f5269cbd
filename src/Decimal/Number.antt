-- ===== src/Decimal/Number.antt =====
-- Texts with digits and at most one point.
use kraken_data_recorder.Base.{
  ℕ, zero, suc, ◌≤◌, true, [], ◌∷◌, ◌++◌, ◌≡◌, ◌⊎◌, inl, inr, refl, ap, arith, length, take,
  length-append,
}
use kraken_data_recorder.Decimal.{Bytes, is_digit, frac_part}
use kraken_data_recorder.Decimal.Digits.{Digits, frac_part-Digits, frac_part-point}
use kraken_data_recorder.Decimal.Token.{one}

-- Digits, with at most one point.
abbrev pub Number : Bytes → Type 0
Number [] = Unit
Number (c ∷ s) = ((is_digit c ≡ true) × Number s) ⊎ ((c ≡ b'.') × Digits s)

pub Digits-Number : (s : Bytes) → Digits s → Number s
Digits-Number [] h = tt
Digits-Number (c ∷ s) h = inl (h.0, Digits-Number s h.1)

pub Digits-append : (s t : Bytes) → Digits s → Digits t → Digits (s ++ t)
Digits-append [] t hs ht = ht
Digits-append (c ∷ s) t hs ht = (hs.0, Digits-append s t hs.1 ht)

pub Number-append : (s t : Bytes) → Number s → Digits t → Number (s ++ t)
Number-append [] t hs ht = Digits-Number t ht
Number-append (c ∷ s) t (inl h) ht = inl (h.0, Number-append s t h.1 ht)
Number-append (c ∷ s) t (inr h) ht = inr (h.0, Digits-append s t h.1 ht)

pub Number-append_point : (s : Bytes) → Digits s → Number (s ++ one b'.')
Number-append_point [] h = inr (refl, tt)
Number-append_point (c ∷ s) h = inl (h.0, Number-append_point s h.1)

Digits-take : (n : ℕ) (s : Bytes) → Digits s → Digits (take n s)
Digits-take zero s h = tt
Digits-take (suc n) [] h = tt
Digits-take (suc n) (c ∷ s) h = (h.0, Digits-take n s h.1)

pub Number-take : (n : ℕ) (s : Bytes) → Number s → Number (take n s)
Number-take zero s h = tt
Number-take (suc n) [] h = tt
Number-take (suc n) (c ∷ s) (inl h) = inl (h.0, Number-take n s h.1)
Number-take (suc n) (c ∷ s) (inr h) = inr (h.0, Digits-take n s h.1)

-- A number is digits, or digits around a point.
Number-parts :
    (s : Bytes)
    → Number s
    → Digits s ⊎ ((i : Bytes) × (f : Bytes) × (s ≡ i ++ (b'.' ∷ f)) × Digits i × Digits f)
Number-parts [] h = inl tt
Number-parts (c ∷ s) (inr (point, h)) = inr ([], s, ap (λ (p : ℕ). p ∷ s) point, tt, h)
Number-parts (c ∷ s) (inl (digit, h)) = elim (Number-parts s h) [
  | inl digits ↦ inl (digit, digits)
  | inr (i, f, e, hi, hf) ↦ inr (c ∷ i, f, ap (◌∷◌ c) e, (digit, hi), hf)
]

pub Number-frac_part :
    (s : Bytes) → Number s → Digits (frac_part s) × (length (frac_part s) ≤ length s)
Number-frac_part s h = elim (Number-parts s h) [
  | inl digits ↦ rw (frac_part-Digits s digits) (tt, omega arith)
  | inr (i, f, e, hi, hf) ↦
      rw (e, frac_part-point i f hi) (hf, omega (arith, length-append i (b'.' ∷ f)))
]
