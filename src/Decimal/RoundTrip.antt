-- ===== src/Decimal/RoundTrip.antt =====
-- The end of the constructor, and the round trip from a token to its print.
use kraken_data_recorder.Base.{
  ℕ, suc, ◌+◌, ◌-◌, ◌*◌, ◌^◌, ◌≤◌, ◌<◌, [], ◌∷◌, ◌++◌, ◌≡◌, ◌⊎◌, inl, inr, refl, ap, sym, ◌∙◌,
  arith, length, Bool-cases, true, false, ok,
}
use native.Mathlib.Nat.{mod-eq_of_lt}
use kraken_data_recorder.Decimal.{
  Bytes, View, view_size, own, Decimal, copy, from_str, normalize, c_max_num_chars, is_zero, str_to,
  to_int, int_part, frac_part,
}
use kraken_data_recorder.Decimal.Digits.{
  Digits, zeros, zeros-Digits, fit, value, value_from, to_int-value, int_part-point,
  frac_part-point,
}
use kraken_data_recorder.Decimal.Layout.{Layout, pointed, whole, static, IsOwn}
use kraken_data_recorder.Decimal.Print.{text_at, str_to-text_at}
use kraken_data_recorder.Decimal.Trim.{
  fit-zeros, Trailing, all_zeros, last, trailing, Holds, own-whole, own-last, normalize-own,
  normalize-static, normalize-chars, zeros-append,
}
use kraken_data_recorder.Decimal.Token.{
  written, Blank, Ends, Canonical, Canonical-Digits, token, room, from_str-token,
}

value_from-ge : (r : ℕ) (s : Bytes) → r ≤ value_from r s
value_from-ge r [] = omega arith
value_from-ge r (c ∷ s) = omega (arith, value_from-ge (r * 10 + (c - b'0')) s)

zero-Canonical : (i : Bytes) → Canonical i → value i ≡ 0 → i ≡ b'0' ∷ []
zero-Canonical [] h e = absurd h
zero-Canonical (c ∷ i) (inl (z, n)) e = rw (z, n)
zero-Canonical (c ∷ i) (inr (d, n, h)) e = ground (arith, value_from-ge (0 * 10 + (c - b'0')) i)

zero-Digits : (f : Bytes) → Digits f → value f ≡ 0 → f ≡ zeros (length f)
zero-Digits [] h e = refl
zero-Digits (c ∷ f) h e =
    let low = value_from-ge (0 * 10 + (c - b'0')) f in
    let z : c ≡ b'0' = ground (arith, h.0) in rw z (ap (◌∷◌ b'0') (zero-Digits f h.1 (rw z at e)))

-- A text that is taken for zero: both of its parts are 0, as `to_int` reads them.
is_zero-parts :
    (view i f : Bytes)
    → int_part view ≡ i
    → frac_part view ≡ f
    → is_zero view ≡ true
    → ((i ≡ []) ⊎ (to_int i ≡ 0)) × ((f ≡ []) ⊎ (to_int f ≡ 0))
unfolding is_zero
is_zero-parts view [] [] ei ef z = (inl refl, inl refl)
is_zero-parts view [] (d ∷ f) ei ef z = (inl refl, inr (ground (arith, ei, ef, z)))
is_zero-parts view (c ∷ i) [] ei ef z = (inr (ground (arith, ei, ef, z)), inl refl)
is_zero-parts view (c ∷ i) (d ∷ f) ei ef z =
    (inr (ground (arith, ei, ef, z)), inr (ground (arith, ei, ef, z)))

-- Below 2 ^ 64 only zero is taken for zero.
zero_value : (s : Bytes) → Digits s → value s < 2 ^ 64 → (s ≡ []) ⊎ (to_int s ≡ 0) → value s ≡ 0
zero_value s h b (inl e) = rw e
zero_value s h b (inr e) = sym (to_int-value s h ∙ mod-eq_of_lt b) ∙ e

own-Holds :
    (i f : Bytes) (k : ℕ)
    → Digits i
    → Trailing f
    → is_zero (i ++ (b'.' ∷ f)) ≡ false
    → Holds (normalize (written (i ++ (b'.' ∷ f)) k)) i f
own-Holds i f k hi (all_zeros m e) z = rw e (own-whole i m k hi (rw e at z))
own-Holds i f k hi (last g c m e n d hg) z = rw e (own-last i g c m k hi hg d n (rw e at z))

fit-all_zeros : (p m : ℕ) → fit p (zeros m) ≡ fit p (zeros 1)
fit-all_zeros p m = fit-zeros p [] m ∙ sym (fit-zeros p [] 1)

-- A copy of a decimal with a view of its own array is laid out as that.
pub Layout-copy : {d : Decimal} {i f : Bytes} → Layout d i f → IsOwn d → Layout (copy d) i f
unfolding copy
Layout-copy (pointed k hi hf e v) o = pointed k hi hf e (ap (λ (v : View). own (view_size v)) v)
Layout-copy (whole c k hi hf e v) o = whole c k hi hf e (ap (λ (v : View). own (view_size v)) v)
Layout-copy (static v hi hf) o = absurd (ground (arith, o.1))

Holds-copy : {d : Decimal} {i f : Bytes} → Holds d i f → IsOwn d → Holds (copy d) i f
Holds-copy h o = record {
  int = h.int;
  frac = h.frac;
  layout = Layout-copy h.layout o;
  same = h.same;
}

-- What the constructor makes of a number, and what any copy of that holds.
pub record Kept (d : Decimal) (i f : Bytes) : Type 0 where
  pub itself : Holds d i f
  pub copied : Holds (copy d) i f

own-Kept :
    (i f : Bytes) (k : ℕ)
    → Digits i
    → Digits f
    → is_zero (i ++ (b'.' ∷ f)) ≡ false
    → Kept (normalize (written (i ++ (b'.' ∷ f)) k)) i f
own-Kept i f k hi hf z =
    let h = own-Holds i f k hi (trailing f hf) z in
    record { itself = h; copied = Holds-copy h (_, normalize-own i f k hi z) }

zero_text : (m p : ℕ) → text_at (zeros 1) (zeros 1) p ≡ text_at (zeros 1) (zeros m) p
zero_text m p = ap (λ (s : Bytes). b'0' ∷ b'.' ∷ s) (sym (fit-all_zeros p m))

zero-Kept :
    (m k : ℕ)
    → 0 < m + k
    → is_zero (b'0' ∷ b'.' ∷ zeros m) ≡ true
    → Kept (normalize (written (b'0' ∷ b'.' ∷ zeros m) k)) (zeros 1) (zeros m)
unfolding copy
zero-Kept m k h z =
    let view = normalize-static (b'0' ∷ b'.' ∷ zeros m) k z in
    let more : m + k ≡ suc (m + k - 1) = omega arith in
    record {
      itself = record {
        int = zeros 1;
        frac = zeros 1;
        layout = static view refl refl;
        same = zero_text m;
      };
      copied = record {
        int = zeros 1;
        frac = zeros 1;
        layout =
            pointed (m + k - 1) (zeros-Digits 1) (zeros-Digits 1)
              (normalize-chars (b'0' ∷ b'.' ∷ zeros m) k
                ∙ ap (λ (s : Bytes). b'0' ∷ b'.' ∷ s)
                    (zeros-append m k ∙ ap (λ (n : ℕ). zeros n) more))
              (ap (λ (v : View). own (view_size v)) view);
        same = zero_text m;
      };
    }

normalize-Kept :
    (i f : Bytes) (k : ℕ)
    → Canonical i
    → Digits f
    → value i < 2 ^ 64
    → value f < 2 ^ 64
    → (i ≡ zeros 1 → 0 < length f + k)
    → Kept (normalize (written (i ++ (b'.' ∷ f)) k)) i f
normalize-Kept i f k hi hf vi vf room = elim (Bool-cases (is_zero (i ++ (b'.' ∷ f)))) [
  | inr n ↦ own-Kept i f k di hf n
  | inl z ↦
      let parts =
        is_zero-parts (i ++ (b'.' ∷ f)) i f (int_part-point i f di) (frac_part-point i f di) z in
      let ei = zero-Canonical i hi (zero_value i di vi parts.0) in
      let ef = zero-Digits f hf (zero_value f hf vf parts.1) in
      rw (ei, ef) (zero-Kept (length f) k (room ei) (rw (ei, ef) at z))
]
  where
    di : Digits i
    di = Canonical-Digits i hi

-- The constructor on a token of at most 48 characters that holds a number with a point, below
-- 2 ^ 64 on both sides of it: it succeeds, and its result and every copy of it print that number
-- at every precision. What stands before the first digit and behind the last is lost.
pub from_str-str_to :
    (p : ℕ) (pre i f post : Bytes)
    → Blank pre
    → Canonical i
    → Digits f
    → Ends post
    → length (token pre i f post) ≤ c_max_num_chars
    → value i < 2 ^ 64
    → value f < 2 ^ 64
    → (d : Decimal) × (from_str (token pre i f post) ≡ ok d)
      × (str_to d p ≡ text_at i f p)
      × (str_to (copy d) p ≡ text_at i f p)
from_str-str_to p pre i f post hp hi hf ends le vi vf =
    let k = normalize-Kept i f (room i f) hi hf vi vf enough in
    (
      normalize (written (i ++ (b'.' ∷ f)) (room i f)),
      from_str-token pre i f post hp hi hf ends le,
      str_to-text_at p k.itself.layout ∙ k.itself.same p,
      str_to-text_at p k.copied.layout ∙ k.copied.same p,
    )
  where
    enough : i ≡ zeros 1 → 0 < length f + room i f
    enough e = omega (arith, ap (λ (s : Bytes). length s) e)
