-- ===== src/Decimal/Layout.antt =====
-- What the array of a decimal holds, around the part that its view shows: the invariant that lets
-- `str_view` lengthen the view in place.
use kraken_data_recorder.Base.{
  ℕ, suc, ◌+◌, [], ◌∷◌, ◌++◌, ◌≡◌, ◌⊎◌, inl, inr, refl, ap, ◌∙◌, arith, length, take, take-append,
}
use kraken_data_recorder.Decimal.{Bytes, own, static_zero, Decimal, str, c_zero_chars}
use kraken_data_recorder.Decimal.Digits.{Digits, zeros}

-- `d` has the digits `i` before its point and `f` behind it. Behind the view stand only '0's, and,
-- where the view has no point, first the place that a point can be written to.
pub data Layout (d : Decimal) (i f : Bytes) : Type 0 where
  pointed :
      (k : ℕ)
      → Digits i
      → Digits f
      → d.chars ≡ i ++ (b'.' ∷ (f ++ zeros k))
      → d.view ≡ own (length i + suc (length f))
      → Layout d i f
  whole :
      (place k : ℕ)
      → Digits i
      → f ≡ []
      → d.chars ≡ i ++ (place ∷ zeros k)
      → d.view ≡ own (length i)
      → Layout d i f
  static : d.view ≡ static_zero → i ≡ b'0' ∷ [] → f ≡ b'0' ∷ [] → Layout d i f

-- The view of the decimal is of its own array, as it is after any copy.
abbrev pub IsOwn : Decimal → Type 0
IsOwn d = (size : ℕ) × (d.view ≡ own size)

pub Layout-Digits : {d : Decimal} {i f : Bytes} → Layout d i f → Digits i × Digits f
Layout-Digits (pointed k hi hf e v) = (hi, hf)
Layout-Digits (whole c k hi hf e v) = (hi, ground arith)
Layout-Digits (static v hi hf) = (ground arith, ground arith)

-- The text of a decimal: with its point, or without.
abbrev pub Shows : Bytes → Bytes → Bytes → Type 0
Shows s i f = (s ≡ i ++ (b'.' ∷ f)) ⊎ ((s ≡ i) × (f ≡ []))

take_exact : (xs ys : Bytes) → take (length xs) (xs ++ ys) ≡ xs
take_exact [] ys = refl
take_exact (x ∷ xs) ys = ap (◌∷◌ x) (take_exact xs ys)

take_point :
    (i f rest : Bytes)
    → take (length i + suc (length f)) (i ++ (b'.' ∷ (f ++ rest))) ≡ i ++ (b'.' ∷ f)
take_point i f rest =
    take-append i (b'.' ∷ (f ++ rest)) (suc (length f))
    ∙ ap (λ (s : Bytes). i ++ (b'.' ∷ s)) (take_exact f rest)

pub str-pointed :
    (d : Decimal) (i f : Bytes) (k : ℕ)
    → d.chars ≡ i ++ (b'.' ∷ (f ++ zeros k))
    → d.view ≡ own (length i + suc (length f))
    → str d ≡ i ++ (b'.' ∷ f)
unfolding str
str-pointed d i f k e v = rw (v, e) (take_point i f (zeros k))

pub str-whole :
    (d : Decimal) (i : Bytes) (place k : ℕ)
    → d.chars ≡ i ++ (place ∷ zeros k)
    → d.view ≡ own (length i)
    → str d ≡ i
unfolding str
str-whole d i place k e v = rw (v, e) (take_exact i (place ∷ zeros k))

pub str-static : (d : Decimal) → d.view ≡ static_zero → str d ≡ c_zero_chars
unfolding str
str-static d v = rw v

pub Layout-Shows : {d : Decimal} {i f : Bytes} → Layout d i f → Shows (str d) i f
Layout-Shows {d} {i} {f} (pointed k hi hf e v) = inl (str-pointed d i f k e v)
Layout-Shows {d} {i} {f} (whole c k hi hf e v) = inr (str-whole d i c k e v, hf)
Layout-Shows {d} {i} {f} (static v hi hf) = inl (rw (hi, hf) (str-static d v))
