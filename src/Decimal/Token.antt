-- ===== src/Decimal/Token.antt =====
-- The loop of the constructor: which characters of a token it keeps.
use kraken_data_recorder.Base.{
  ℕ, suc, ◌+◌, ◌-◌, ◌≤◌, [], ◌∷◌, ◌++◌, ◌≡◌, ◌⊎◌, inl, inr, refl, ap, ◌∙◌, arith, length, true,
  false, ◌==◌, ltb, append_assoc, append-nil, length-append, set-append, ok, ◌>>=◌, Result, All,
}
use kraken_data_recorder.Decimal.{
  Bytes, is_digit, State, before_digit, before_decimal, after_decimal, after_value, Dst, put, keep,
  step, scan, from_str, normalize, c_max_num_chars,
}
use kraken_data_recorder.Decimal.Digits.{Digits, zeros}

-- The array with `out` written to it, and '0's in the `k` places that are left.
abbrev pub written : Bytes → ℕ → Dst
written out k = record { chars = out ++ zeros k; dst_idx = length out }

-- No character is a digit.
abbrev pub Blank : Bytes → Type 0
Blank = All (λ ch. is_digit ch ≡ false)

-- What ends a number: nothing, or a character that is no digit and what stands behind it.
abbrev pub Ends : Bytes → Type 0
Ends [] = Unit
Ends (c ∷ post) = is_digit c ≡ false

-- An integer with no needless '0' in front.
abbrev pub Canonical : Bytes → Type 0
Canonical [] = ⊥
Canonical (c ∷ i) =
    ((c ≡ b'0') × (i ≡ [])) ⊎ ((is_digit c ≡ true) × ((c == b'0') ≡ false) × Digits i)

pub put-written :
    (out : Bytes) (k c : ℕ) → put (written out (suc k)) c ≡ ok (written (out ++ (c ∷ [])) k)
unfolding put
put-written out k c =
    let within : ltb (length out) (length (out ++ (b'0' ∷ zeros k))) ≡ true =
      ground (arith, length-append out (b'0' ∷ zeros k)) in
    rw (within, set-append out b'0' (zeros k) c, append_assoc out (c ∷ []) (zeros k))
      (ap (λ (n : ℕ). ok (record { chars = out ++ (c ∷ zeros k); dst_idx = n }))
        (omega (arith, length-append out (c ∷ []))))

abbrev pub one : ℕ → Bytes
one c = c ∷ []

pub keep-written :
    (next : State) (out : Bytes) (k c : ℕ)
    → keep next (written out (suc k)) c ≡ ok (next, written (out ++ one c) k)
unfolding keep
keep-written next out k c = ap (λ (r : Result Dst). r >>= λ w. ok (next, w)) (put-written out k c)

-- A step that keeps a character, at the state that it leads to.
pub scan_kept :
    (state next : State) (c : ℕ) (s out : Bytes) (k : ℕ)
    → step state c s (written out (suc k)) ≡ keep next (written out (suc k)) c
    → scan state (c ∷ s) (written out (suc k)) ≡ scan next s (written (out ++ one c) k)
unfolding scan
scan_kept state next c s out k e =
    ap (λ (r : Result (State × Dst)). r >>= λ read. scan read.0 s read.1)
      (e ∙ keep-written next out k c)

digit-step :
    (c : ℕ) (s : Bytes) (w : Dst)
    → is_digit c ≡ true
    → (step before_decimal c s w ≡ keep before_decimal w c)
      × (step after_decimal c s w ≡ keep after_decimal w c)
unfolding step
digit-step c s w h = (rw h, rw h)

-- Both states that read digits keep each of them.
abbrev pub ReadsDigits : State → Type 0
ReadsDigits before_decimal = Unit {0}
ReadsDigits after_decimal = Unit {0}
ReadsDigits before_digit = ⊥
ReadsDigits after_value = ⊥

digit_kept :
    (state : State) (c : ℕ) (s : Bytes) (w : Dst)
    → ReadsDigits state
    → is_digit c ≡ true
    → step state c s w ≡ keep state w c
digit_kept before_decimal c s w r h = (digit-step c s w h).0
digit_kept after_decimal c s w r h = (digit-step c s w h).1
digit_kept before_digit c s w r h = absurd r
digit_kept after_value c s w r h = absurd r

pub scan-Digits :
    (state : State) (i s out : Bytes) (n k : ℕ)
    → ReadsDigits state
    → Digits i
    → n ≡ length i + k
    → scan state (i ++ s) (written out n) ≡ scan state s (written (out ++ i) k)
scan-Digits state [] s out n k r h e = let e' : n ≡ k = omega arith in rw (e', append-nil out)
scan-Digits state (c ∷ i) s out n k r h e =
    let e' : n ≡ suc (length i + k) = omega arith in
    rw e' (
      scan_kept state state c (i ++ s) out (length i + k) (digit_kept state c (i ++ s) _ r h.0)
      ∙ scan-Digits state i s (out ++ one c) (length i + k) k r h.1 refl
      ∙ ap (λ (o : Bytes). scan state s (written o k)) (append_assoc out (one c) i))

scan-after_value : (s : Bytes) (w : Dst) → scan after_value s w ≡ ok w
unfolding scan
scan-after_value [] w = refl
scan-after_value (c ∷ s) w = scan-after_value s w

scan-Ends : (post : Bytes) (w : Dst) → Ends post → scan after_decimal post w ≡ ok w
unfolding scan
scan-Ends [] w h = refl
scan-Ends (c ∷ post) w h = rw h (scan-after_value post w)

scan-Blank :
    (pre s : Bytes) (w : Dst) → Blank pre → scan before_digit (pre ++ s) w ≡ scan before_digit s w
unfolding scan
scan-Blank [] s w h = refl
scan-Blank (c ∷ pre) s w h = rw h.0 (scan-Blank pre s w h.1)

point_kept : (s : Bytes) (w : Dst) → step before_decimal b'.' s w ≡ keep after_decimal w b'.'
unfolding step
point_kept s w = refl

first_kept :
    (c : ℕ) (i s : Bytes) (w : Dst)
    → Canonical (c ∷ i)
    → step before_digit c (i ++ (b'.' ∷ s)) w ≡ keep before_decimal w c
unfolding step
first_kept c i s w (inl (z, e)) = rw (e, z, step)
first_kept c i s w (inr (d, z, h)) = rw (d, z)

pub Canonical-Digits : (i : Bytes) → Canonical i → Digits i
Canonical-Digits [] h = absurd h
Canonical-Digits (c ∷ i) (inl (z, e)) = rw (z, e) (refl, tt)
Canonical-Digits (c ∷ i) (inr (d, z, h)) = (d, h)

-- A token: what stands before the number, its digits around the point, and what stands behind it.
abbrev pub token : Bytes → Bytes → Bytes → Bytes → Bytes
token pre i f post = pre ++ (i ++ (b'.' ∷ (f ++ post)))

scan-Canonical :
    (i s : Bytes) (k : ℕ)
    → Canonical i
    → scan before_digit (i ++ (b'.' ∷ s)) (written [] (length i + suc k))
      ≡ scan after_decimal s (written (i ++ one b'.') k)
scan-Canonical [] s k h = absurd h
scan-Canonical (c ∷ i) s k h =
    let e : suc (length i) + suc k ≡ suc (length i + suc k) = omega arith in
    rw e (
      scan_kept before_digit before_decimal c (i ++ (b'.' ∷ s)) [] (length i + suc k)
        (first_kept c i s _ h)
      ∙ scan-Digits before_decimal i (b'.' ∷ s) (one c) (length i + suc k) (suc k) tt
          (Canonical-Digits (c ∷ i) h).1 refl
      ∙ scan_kept before_decimal after_decimal b'.' s (c ∷ i) k (point_kept s _))

scan-token :
    (pre i f post : Bytes) (k : ℕ)
    → Blank pre
    → Canonical i
    → Digits f
    → Ends post
    → scan before_digit (token pre i f post) (written [] (length i + suc (length f + k)))
      ≡ ok (written (i ++ (b'.' ∷ f)) k)
scan-token pre i f post k hp hi hf ends =
    scan-Blank pre _ _ hp
    ∙ scan-Canonical i (f ++ post) (length f + k) hi
    ∙ scan-Digits after_decimal f post (i ++ one b'.') (length f + k) k tt hf refl
    ∙ scan-Ends post _ ends
    ∙ ap (λ (o : Bytes). ok (written o k)) (append_assoc i (one b'.') f)

pub length-token :
    (pre i f post : Bytes)
    → length (token pre i f post) ≡ length pre + (length i + suc (length f + length post))
length-token pre i f post = omega (
  arith,
  length-append pre (i ++ (b'.' ∷ (f ++ post))),
  length-append i (b'.' ∷ (f ++ post)),
  length-append f post,
)

-- The places of the array that a number leaves free.
abbrev pub room : Bytes → Bytes → ℕ
room i f = c_max_num_chars - (length i + suc (length f))

-- A token of at most 48 characters: the constructor keeps the number alone.
pub from_str-token :
    (pre i f post : Bytes)
    → Blank pre
    → Canonical i
    → Digits f
    → Ends post
    → length (token pre i f post) ≤ c_max_num_chars
    → from_str (token pre i f post) ≡ ok (normalize (written (i ++ (b'.' ∷ f)) (room i f)))
unfolding from_str
from_str-token pre i f post hp hi hf ends le =
    let places : c_max_num_chars ≡ length i + suc (length f + room i f) =
      omega (arith, length-token pre i f post) in
    let fits : ltb c_max_num_chars (length (token pre i f post)) ≡ false = ground arith in
    rw fits (
      ap (λ (r : Result Dst). r >>= λ w. ok (normalize w))
        (ap (λ (n : ℕ). scan before_digit (token pre i f post) (written [] n)) places
          ∙ scan-token pre i f post (room i f) hp hi hf ends))
