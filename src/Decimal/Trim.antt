-- ===== src/Decimal/Trim.antt =====
-- The end of the constructor: the '0's and the point that it takes off the view.
use kraken_data_recorder.Base.{
  ℕ, zero, suc, ◌+◌, ◌≤◌, ◌<◌, [], ◌∷◌, ◌++◌, ◌≡◌, inl, inr, refl, ap, sym, ◌∙◌, arith, length,
  Bool-cases, true, false, if◌then◌else◌, ◌==◌, append_assoc, length-append, length-replicate,
  get_or, get_or-append, take,
}
use kraken_data_recorder.Decimal.{
  Bytes, is_digit, own, static_zero, Decimal, normalize, drop_zeros, drop_point, is_zero,
}
use kraken_data_recorder.Decimal.Digits.{Digits, zeros, fit, find-point}
use kraken_data_recorder.Decimal.Layout.{Layout, pointed, whole}
use kraken_data_recorder.Decimal.Print.{text_at}
use kraken_data_recorder.Decimal.Token.{written}

pub zeros-append : (m k : ℕ) → zeros m ++ zeros k ≡ zeros (m + k)
zeros-append zero k = let e : k ≡ 0 + k = omega arith in ap (λ (n : ℕ). zeros n) e
zeros-append (suc m) k =
    let e : suc (m + k) ≡ suc m + k = omega arith in
    ap (◌∷◌ b'0') (zeros-append m k) ∙ ap (λ (n : ℕ). zeros n) e

get_or-zeros :
    (base : Bytes) (m j : ℕ) → j < m → get_or (base ++ zeros m) (length base + j) 0 ≡ b'0'
get_or-zeros [] (suc m) zero h = refl
get_or-zeros [] (suc m) (suc j) h =
    let e : 0 + suc j ≡ suc (0 + j) = omega arith in rw e (get_or-zeros [] m j (omega arith))
get_or-zeros (b ∷ base) m j h =
    let e : suc (length base) + j ≡ suc (length base + j) = omega arith in
    rw e (get_or-zeros base m j h)
get_or-zeros [] zero j h = absurd (omega arith)

-- The loop goes down over the '0's at the end.
drop_zeros-zeros :
    (base : Bytes) (m j idx : ℕ)
    → j ≤ m
    → idx ≤ length base
    → drop_zeros (length base + j) (base ++ zeros m) idx
      ≡ drop_zeros (length base) (base ++ zeros m) idx
unfolding drop_zeros
drop_zeros-zeros base m zero idx h b =
    ap (λ (n : ℕ). drop_zeros n (base ++ zeros m) idx) (omega arith)
drop_zeros-zeros base m (suc j) idx h b =
    let e : length base + suc j ≡ suc (length base + j) = omega arith in
    rw e (
      ground
        (arith, get_or-zeros base m j (omega arith), drop_zeros-zeros base m j idx (omega arith) b))

-- It stops at the last character that is no '0'.
drop_zeros-last :
    (h : Bytes) (x m idx : ℕ)
    → (x == b'0') ≡ false
    → idx ≤ length h
    → drop_zeros (suc (length h) + m) (h ++ (x ∷ zeros m)) idx ≡ suc (length h)
unfolding drop_zeros
drop_zeros-last h x m idx n b =
    let base = h ++ (x ∷ []) in
    let regroup : h ++ (x ∷ zeros m) ≡ base ++ zeros m = sym (append_assoc h (x ∷ []) (zeros m)) in
    let size : length base ≡ suc (length h) = omega (arith, length-append h (x ∷ [])) in
    let stop : drop_zeros (suc (length h)) (h ++ (x ∷ zeros m)) idx ≡ suc (length h) =
      ground (arith, get_or-append h x (zeros m) 0) in
    ap (λ (v : Bytes). drop_zeros (suc (length h) + m) v idx) regroup
    ∙ ap (λ (n : ℕ). drop_zeros (n + m) (base ++ zeros m) idx) (sym size)
    ∙ drop_zeros-zeros base m m idx (omega arith) (omega arith)
    ∙ ap (λ (n : ℕ). drop_zeros n (base ++ zeros m) idx) size
    ∙ ap (λ (v : Bytes). drop_zeros (suc (length h)) v idx) (sym regroup)
    ∙ stop

drop_point-last :
    (h : Bytes) (x : ℕ) (s : Bytes)
    → drop_point (suc (length h)) (h ++ (x ∷ s)) ≡ (if x == b'.' then length h else suc (length h))
unfolding drop_point
drop_point-last h x s = ground (arith, get_or-append h x s 0)

-- A fraction is '0's, or ends in a digit that is none and '0's.
pub data Trailing (f : Bytes) : Type 0 where
  all_zeros : (m : ℕ) → f ≡ zeros m → Trailing f
  last :
      (g : Bytes) (c m : ℕ)
      → f ≡ g ++ (c ∷ zeros m)
      → (c == b'0') ≡ false
      → is_digit c ≡ true
      → Digits g
      → Trailing f

trailing-cons : (c : ℕ) (f : Bytes) → is_digit c ≡ true → Trailing f → Trailing (c ∷ f)
trailing-cons c f h (all_zeros m e) = elim (Bool-cases (c == b'0')) [
  | inl z ↦ all_zeros (suc m) (ground arith)
  | inr n ↦ last [] c m (ap (◌∷◌ c) e) n h tt
]
trailing-cons c f h (last g x m e n d dg) = last (c ∷ g) x m (ap (◌∷◌ c) e) n d (h, dg)

pub trailing : (f : Bytes) → Digits f → Trailing f
trailing [] h = all_zeros 0 refl
trailing (c ∷ f) h = trailing-cons c f h.0 (trailing f h.1)

pub fit-zeros : (p : ℕ) (f : Bytes) (m : ℕ) → fit p (f ++ zeros m) ≡ fit p f
fit-zeros zero f m = refl
fit-zeros (suc p) [] zero = refl
fit-zeros (suc p) [] (suc m) = ap (◌∷◌ b'0') (fit-zeros p [] m)
fit-zeros (suc p) (c ∷ f) m = ap (◌∷◌ c) (fit-zeros p f m)

take_written : (out : Bytes) (k : ℕ) → take (length out) (out ++ zeros k) ≡ out
take_written [] k = refl
take_written (c ∷ out) k = ap (◌∷◌ c) (take_written out k)

-- After the loop, with digits that are not taken for zero: the view is what `drop_zeros` and
-- `drop_point` leave.
pub normalize-own :
    (i f : Bytes) (k : ℕ)
    → Digits i
    → is_zero (i ++ (b'.' ∷ f)) ≡ false
    → (normalize (written (i ++ (b'.' ∷ f)) k)).view
      ≡ own (
          drop_point
            (drop_zeros (length (i ++ (b'.' ∷ f))) (i ++ (b'.' ∷ f)) (length i))
            (i ++ (b'.' ∷ f)))
unfolding normalize
normalize-own i f k hi z = rw (
  take_written (i ++ (b'.' ∷ f)) k,
  z,
  normalize,
  find-point i f hi,
  take_written (i ++ (b'.' ∷ f)) k,
)

pub normalize-static :
    (w : Bytes) (k : ℕ) → is_zero w ≡ true → (normalize (written w k)).view ≡ static_zero
unfolding normalize
normalize-static w k z = rw (take_written w k, z)

pub normalize-chars : (w : Bytes) (k : ℕ) → (normalize (written w k)).chars ≡ w ++ zeros k
unfolding normalize
normalize-chars w k = elim (Bool-cases (is_zero (take (length w) (w ++ zeros k)))) [
  | inl z ↦ rw z
  | inr n ↦ rw n
]

-- A decimal that holds the number with digits `i` and `f`, in a form of its own.
pub record Holds (d : Decimal) (i f : Bytes) : Type 0 where
  pub int : Bytes
  pub frac : Bytes
  pub layout : Layout d int frac
  pub same : (p : ℕ) → text_at int frac p ≡ text_at i f p

pub own-whole :
    (i : Bytes) (m k : ℕ)
    → Digits i
    → is_zero (i ++ (b'.' ∷ zeros m)) ≡ false
    → Holds (normalize (written (i ++ (b'.' ∷ zeros m)) k)) i (zeros m)
own-whole i m k hi z = record {
  int = i;
  frac = [];
  layout =
      whole b'.' (m + k) hi refl
        (normalize-chars (i ++ (b'.' ∷ zeros m)) k
          ∙ append_assoc i (b'.' ∷ zeros m) (zeros k)
          ∙ ap (λ (s : Bytes). i ++ (b'.' ∷ s)) (zeros-append m k))
        (normalize-own i (zeros m) k hi z ∙ ap own size);
  same = λ p. ap (λ (s : Bytes). i ++ (b'.' ∷ s)) (sym (fit-zeros p [] m));
}
  where
    view : Bytes
    view = i ++ (b'.' ∷ zeros m)

    total : length view ≡ suc (length i) + m
    total = omega (arith, length-append i (b'.' ∷ zeros m), length-replicate {A = ℕ} m b'0')

    size : drop_point (drop_zeros (length view) view (length i)) view ≡ length i
    size =
        ap (λ (n : ℕ). drop_point (drop_zeros n view (length i)) view) total
        ∙ ap (λ (n : ℕ). drop_point n view) (drop_zeros-last i b'.' m (length i) refl (omega arith))
        ∙ drop_point-last i b'.' (zeros m)

digit-ne-point : (c : ℕ) → is_digit c ≡ true → (c == b'.') ≡ false
digit-ne-point c h = ground arith

Digits-last : (g : Bytes) (c : ℕ) → Digits g → is_digit c ≡ true → Digits (g ++ (c ∷ []))
Digits-last [] c h d = (d, tt)
Digits-last (x ∷ g) c h d = (h.0, Digits-last g c h.1 d)

pub own-last :
    (i g : Bytes) (c m k : ℕ)
    → Digits i
    → Digits g
    → is_digit c ≡ true
    → (c == b'0') ≡ false
    → is_zero (i ++ (b'.' ∷ (g ++ (c ∷ zeros m)))) ≡ false
    → Holds (normalize (written (i ++ (b'.' ∷ (g ++ (c ∷ zeros m)))) k)) i (g ++ (c ∷ zeros m))
own-last i g c m k hi hg d n z = record {
  int = i;
  frac = g ++ one;
  layout =
      pointed (m + k) hi (Digits-last g c hg d)
        (normalize-chars view k
          ∙ append_assoc i (b'.' ∷ (g ++ (c ∷ zeros m))) (zeros k)
          ∙ ap (λ (s : Bytes). i ++ (b'.' ∷ s)) split)
        (normalize-own i (g ++ (c ∷ zeros m)) k hi z ∙ ap own size);
  same = λ p.
      ap (λ (s : Bytes). i ++ (b'.' ∷ s))
        (sym (ap (fit p) (sym (append_assoc g one (zeros m))) ∙ fit-zeros p (g ++ one) m));
}
  where
    one : Bytes
    one = c ∷ []

    head : Bytes
    head = i ++ (b'.' ∷ g)

    view : Bytes
    view = i ++ (b'.' ∷ (g ++ (c ∷ zeros m)))

    split : (g ++ (c ∷ zeros m)) ++ zeros k ≡ (g ++ one) ++ zeros (m + k)
    split =
        append_assoc g (c ∷ zeros m) (zeros k)
        ∙ ap (λ (s : Bytes). g ++ (c ∷ s)) (zeros-append m k)
        ∙ sym (append_assoc g one (zeros (m + k)))

    regroup : view ≡ head ++ (c ∷ zeros m)
    regroup = sym (append_assoc i (b'.' ∷ g) (c ∷ zeros m))

    total : length view ≡ suc (length head) + m
    total =
        ap (λ (s : Bytes). length s) regroup
        ∙ omega (arith, length-append head (c ∷ zeros m), length-replicate {A = ℕ} m b'0')

    head_size : suc (length head) ≡ length i + suc (length (g ++ one))
    head_size = omega (arith, length-append i (b'.' ∷ g), length-append g one)

    size :
        drop_point (drop_zeros (length view) view (length i)) view
        ≡ length i + suc (length (g ++ one))
    size =
        ap (λ (n : ℕ). drop_point (drop_zeros n view (length i)) view) total
        ∙ ap (λ (v : Bytes). drop_point (drop_zeros (suc (length head) + m) v (length i)) v) regroup
        ∙ ap (λ (n : ℕ). drop_point n (head ++ (c ∷ zeros m)))
            (drop_zeros-last head c m (length i) n (omega (arith, length-append i (b'.' ∷ g))))
        ∙ drop_point-last head c (zeros m)
        ∙ rw (digit-ne-point c d) head_size
