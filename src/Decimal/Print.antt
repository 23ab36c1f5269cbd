-- ===== src/Decimal/Print.antt =====
-- `str(precision)` and `str_view(precision)` against one description of their result.
use kraken_data_recorder.Base.{
  ℕ, zero, suc, ◌+◌, ◌-◌, ◌≤◌, [], ◌∷◌, ◌++◌, ◌≡◌, inl, inr, refl, ap, sym, ◌∙◌, arith, length,
  take, take-append, length-append, length-replicate, set-append, append_assoc, Bool-cases, ltb, ok,
}
use kraken_data_recorder.Decimal.{Bytes, own, Decimal, str, str_to, str_view, read_view, write_char}
use kraken_data_recorder.Decimal.Digits.{Digits, zeros, fit, fit-nil, find-point, find-Digits}
use kraken_data_recorder.Decimal.Layout.{
  Layout, pointed, whole, static, Layout-Digits, Layout-Shows, IsOwn, str-pointed, str-whole,
}

-- The text at a precision: all digits before the point, and so many behind it.
abbrev pub text_at : Bytes → Bytes → ℕ → Bytes
text_at i f precision = i ++ (b'.' ∷ fit precision f)

fit_long : (p : ℕ) (f : Bytes) → length f ≤ p → fit p f ≡ f ++ zeros (p - length f)
fit_long p [] h = fit-nil p ∙ ap (λ (n : ℕ). zeros n) (omega arith)
fit_long zero (c ∷ f) h = absurd (omega arith)
fit_long (suc p) (c ∷ f) h =
    ap (◌∷◌ c) (fit_long p f (omega arith) ∙ ap (λ (n : ℕ). f ++ zeros n) (omega arith))

fit_short : (p : ℕ) (f : Bytes) → p ≤ length f → fit p f ≡ take p f
fit_short zero f h = refl
fit_short (suc p) [] h = absurd (omega arith)
fit_short (suc p) (c ∷ f) h = ap (◌∷◌ c) (fit_short p f (omega arith))

after_point : (i f : Bytes) → length (i ++ (b'.' ∷ f)) - suc (length i) ≡ length f
after_point i f = omega (arith, length-append i (b'.' ∷ f))

str_to-point :
    (d : Decimal) (i f : Bytes) (p : ℕ)
    → Digits i
    → str d ≡ i ++ (b'.' ∷ f)
    → str_to d p ≡ text_at i f p
unfolding str_to
str_to-point d i f p hi e =
    rw (e, find-point i f hi, str_to, e, after_point i f)
      (elim (Bool-cases (ltb (length f) p)) [
        | inl more ↦ rw more (
            append_assoc i (b'.' ∷ f) (zeros (p - length f))
            ∙ ap (λ (s : Bytes). i ++ (b'.' ∷ s)) (sym (fit_long p f (ground arith))))
        | inr less ↦ rw less (
            ap (λ (n : ℕ). take n (i ++ (b'.' ∷ f))) (omega arith)
            ∙ take-append i (b'.' ∷ f) (suc p)
            ∙ ap (λ (s : Bytes). i ++ (b'.' ∷ s)) (sym (fit_short p f (ground arith))))
      ])

str_to-Digits :
    (d : Decimal) (i f : Bytes) (p : ℕ) → Digits i → str d ≡ i → f ≡ [] → str_to d p ≡ text_at i f p
unfolding str_to
str_to-Digits d i f p hi e z = rw (e, find-Digits i hi, str_to, e, z, fit-nil p)

-- `str(precision)` prints the digits before the point and exactly `precision` digits behind it,
-- cutting the fraction or filling it up with '0'.
pub str_to-text_at : {d : Decimal} {i f : Bytes} (p : ℕ) → Layout d i f → str_to d p ≡ text_at i f p
str_to-text_at {d} {i} {f} p h = elim (Layout-Shows h) [
  | inl e ↦ str_to-point d i f p (Layout-Digits h).0 e
  | inr e ↦ str_to-Digits d i f p (Layout-Digits h).0 e.0 e.1
]

zeros_split : (k m : ℕ) → m ≤ k → zeros k ≡ zeros m ++ zeros (k - m)
zeros_split k zero h = ap (λ (n : ℕ). zeros n) (omega arith)
zeros_split zero (suc m) h = absurd (omega arith)
zeros_split (suc k) (suc m) h =
    ap (◌∷◌ b'0') (zeros_split k m (omega arith) ∙ ap (λ (n : ℕ). zeros m ++ zeros n) (omega arith))

length_pointed :
    (i f : Bytes) (k : ℕ) → length (i ++ (b'.' ∷ (f ++ zeros k))) ≡ length i + suc (length f + k)
length_pointed i f k = omega (
  arith,
  length-append i (b'.' ∷ (f ++ zeros k)),
  length-append f (zeros k),
  length-replicate {A = ℕ} k b'0',
)

fit-take : (p : ℕ) (f : Bytes) (k : ℕ) → p ≤ length f + k → take p (f ++ zeros k) ≡ fit p f
fit-take zero f k h = refl
fit-take (suc p) [] zero h = absurd (omega arith)
fit-take (suc p) [] (suc k) h = ap (◌∷◌ b'0') (fit-take p [] k (omega arith))
fit-take (suc p) (c ∷ f) k h = ap (◌∷◌ c) (fit-take p f k (omega arith))

read_pointed :
    (d : Decimal) (i f : Bytes) (k p size : ℕ) (n : ℕ)
    → d.chars ≡ i ++ (b'.' ∷ (f ++ zeros k))
    → d.view ≡ own size
    → p ≤ length f + k
    → n ≡ length i + suc p
    → read_view d n ≡ ok (text_at i f p)
unfolding read_view
read_pointed d i f k p size n e v h en =
    rw (v, read_view, e, en)
      (ground (
        arith,
        length_pointed i f k,
        take-append i (b'.' ∷ (f ++ zeros k)) (suc p),
        fit-take p f k h,
      ))

-- What `str_view` returns where it does not fault.
pub record Viewed (d : Decimal) (i f : Bytes) (p : ℕ) : Type 0 where
  pub after : Decimal
  pub views : str_view d p ≡ ok (after, text_at i f p)
  pub same_text : str after ≡ str d
  pub same_view : after.view ≡ d.view
  pub layout : Layout after i f

str_view-pointed :
    (d : Decimal) (i f : Bytes) (k p : ℕ)
    → Digits i
    → Digits f
    → d.chars ≡ i ++ (b'.' ∷ (f ++ zeros k))
    → d.view ≡ own (length i + suc (length f))
    → p ≤ length f + k
    → str_view d p ≡ ok (d, text_at i f p)
unfolding str_view
str_view-pointed d i f k p hi hf e v h =
    rw
      (
        str-pointed d i f k e v,
        find-point i f hi,
        str_view,
        str-pointed d i f k e v,
        after_point i f,
      )
      (elim (Bool-cases (ltb (length f) p)) [
        | inl more ↦ rw (
          more,
          read_pointed d i f k p (length i + suc (length f))
              (length (i ++ (b'.' ∷ f)) + (p - length f)) e v h
              (ground (arith, length-append i (b'.' ∷ f))),
        )
        | inr less ↦ rw (
          less,
          read_pointed d i f k p (length i + suc (length f)) (length i + 1 + p) e v h (omega arith),
        )
      ])

length_whole : (i : Bytes) (c k : ℕ) → length (i ++ (c ∷ zeros k)) ≡ length i + suc k
length_whole i c k = omega (arith, length-append i (c ∷ zeros k), length-replicate {A = ℕ} k b'0')

write_whole :
    (d : Decimal) (i : Bytes) (c k : ℕ)
    → d.chars ≡ i ++ (c ∷ zeros k)
    → write_char d (length i) b'.' ≡ ok (record { chars = i ++ (b'.' ∷ zeros k); view = d.view })
unfolding write_char
write_whole d i c k e =
    rw (e, write_char) (ground (arith, length_whole i c k, set-append i c (zeros k) b'.'))

str_view-whole :
    (d : Decimal) (i : Bytes) (c k p : ℕ)
    → Digits i
    → d.chars ≡ i ++ (c ∷ zeros k)
    → d.view ≡ own (length i)
    → p ≤ k
    → str_view d p ≡ ok (record { chars = i ++ (b'.' ∷ zeros k); view = d.view }, text_at i [] p)
unfolding str_view
str_view-whole d i c k p hi e v h =
    rw
      (
        str-whole d i c k e v,
        find-Digits i hi,
        str_view,
        str-whole d i c k e v,
        write_whole d i c k e,
      )
      (rw (
        read_pointed (record { chars = i ++ (b'.' ∷ zeros k); view = d.view }) i [] k p (length i)
          (length i + p + 1) refl v (omega arith) (omega arith)))

room_pointed :
    (d : Decimal) (i f : Bytes) (k p : ℕ)
    → d.chars ≡ i ++ (b'.' ∷ (f ++ zeros k))
    → length i + suc p ≤ length d.chars
    → p ≤ length f + k
room_pointed d i f k p e h = omega (arith, ap (λ (s : Bytes). length s) e, length_pointed i f k)

room_whole :
    (d : Decimal) (i : Bytes) (c k p : ℕ)
    → d.chars ≡ i ++ (c ∷ zeros k)
    → length i + suc p ≤ length d.chars
    → p ≤ k
room_whole d i c k p e h = omega (arith, ap (λ (s : Bytes). length s) e, length_whole i c k)

-- `str_view` shows what `str` prints, wherever the array has room for it: the view is lengthened
-- into the '0's behind it, and where it has no point one is written first. The write leaves the
-- text of the decimal as it was.
pub str_view-Viewed :
    {d : Decimal} {i f : Bytes} (p : ℕ)
    → Layout d i f
    → IsOwn d
    → length i + suc p ≤ length d.chars
    → Viewed d i f p
str_view-Viewed {d} {i} {f} p (pointed k hi hf e v) o h = record {
  after = d;
  views = str_view-pointed d i f k p hi hf e v (room_pointed d i f k p e h);
  same_text = refl;
  same_view = refl;
  layout = pointed k hi hf e v;
}
str_view-Viewed {d} {i} {f} p (whole c k hi z e v) o h = record {
  after = record { chars = i ++ (b'.' ∷ zeros k); view = d.view };
  views = rw z (str_view-whole d i c k p hi e v (room_whole d i c k p e h));
  same_text =
      str-whole (record { chars = i ++ (b'.' ∷ zeros k); view = d.view }) i b'.' k refl v
      ∙ sym (str-whole d i c k e v);
  same_view = refl;
  layout = whole b'.' k hi z refl v;
}
str_view-Viewed {d} p (static v hi hf) o h = absurd (ground (arith, o.1))

-- `str_view` against `str`: for a view of the decimal's own array with room for the result, the
-- two agree at every precision, and the write that `str_view` may make changes neither the text
-- of the decimal nor the layout of its array.
pub str_view-str_to :
    {d : Decimal} {i f : Bytes} (p : ℕ)
    → Layout d i f
    → IsOwn d
    → length i + suc p ≤ length d.chars
    → (after : Decimal) × (str_view d p ≡ ok (after, str_to d p))
      × (str after ≡ str d)
      × Layout after i f
str_view-str_to p h o room =
    let v = str_view-Viewed p h o room in
    (v.after, rw (str_to-text_at p h) v.views, v.same_text, v.layout)
