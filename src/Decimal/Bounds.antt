-- ===== src/Decimal/Bounds.antt =====
-- The outcomes of `decimal_t`'s constructor, for any token.
use kraken_data_recorder.Base.{
  ℕ, zero, suc, ◌+◌, ◌≤◌, [], ◌≡◌, ◌⊎◌, inl, inr, refl, ap, arith, length, take, Bool-cases, ok,
  err, ◌<◌, too_long, invalid_state, Result, ◌>>=◌, length-append, length-replicate, length-take-le,
  ltb, Option-cases,
}
use kraken_data_recorder.Decimal.{
  Bytes, Decimal, own, static_zero, copy, str, view_size, view_chars, before_digit, Dst, scan,
  from_str, normalize, drop_zeros, drop_point, is_zero, find, c_max_num_chars,
}
use kraken_data_recorder.Decimal.Digits.{zeros, zeros-Digits}
use kraken_data_recorder.Decimal.Layout.{IsOwn}
use kraken_data_recorder.Decimal.Order.{IsDecimal}
use kraken_data_recorder.Decimal.Token.{written}
use kraken_data_recorder.Decimal.Number.{Number, Number-append, Number-take, Number-frac_part}
use kraken_data_recorder.Decimal.Scan.{Filled, Scanned, scan-Scanned}

drop_zeros-le : (n : ℕ) (view : Bytes) (idx : ℕ) → drop_zeros n view idx ≤ n
unfolding drop_zeros
drop_zeros-le zero view idx = omega arith
drop_zeros-le (suc n) view idx = ground (arith, drop_zeros-le n view idx)

drop_point-le : (n : ℕ) (view : Bytes) → drop_point n view ≤ n
unfolding drop_point
drop_point-le zero view = omega arith
drop_point-le (suc n) view = ground arith

-- What every decimal is that the constructor has made, and every copy of one.
pub record IsRead (d : Decimal) : Type 0 where
  pub chars_full : length d.chars ≡ c_max_num_chars
  pub view_within : view_size d.view ≤ c_max_num_chars
  pub number : Number d.chars

chars-normalize : (w : Dst) → (normalize w).chars ≡ w.chars
unfolding normalize
chars-normalize w = elim (Bool-cases (is_zero (take w.dst_idx w.chars))) [
  | inl z ↦ rw z
  | inr z ↦ rw z
]

view_size-normalize : (w : Dst) (n : ℕ) → 3 ≤ n → w.dst_idx ≤ n → view_size (normalize w).view ≤ n
unfolding normalize
view_size-normalize w n three le =
    let view = take w.dst_idx w.chars in
    elim (Bool-cases (is_zero view)) [
      | inl z ↦ rw z three
      | inr z ↦ elim (Option-cases (find b'.' view)) [
        | inl no_point ↦ rw (z, no_point, normalize) le
        | inr (idx, point) ↦
            let end_idx = drop_zeros w.dst_idx view idx in
            let short : drop_point end_idx view ≤ n =
              omega (arith, drop_point-le end_idx view, drop_zeros-le w.dst_idx view idx) in
            rw (z, point, normalize) short
      ]
    ]

written-IsRead :
    (out : Bytes) (free : ℕ)
    → length out + free ≡ c_max_num_chars
    → Number out
    → IsRead (normalize (written out free))
written-IsRead out free e number = record {
  chars_full =
      rw (chars-normalize (written out free))
        (omega (arith, length-append out (zeros free), length-replicate {A = ℕ} free b'0'));
  view_within = view_size-normalize (written out free) c_max_num_chars (omega arith) (omega arith);
  number =
      rw (chars-normalize (written out free))
        (Number-append out (zeros free) number (zeros-Digits free));
}

Filled-IsRead : (w : Dst) → Filled c_max_num_chars w → IsRead (normalize w)
Filled-IsRead w f = rw (f.array) (written-IsRead f.out f.free f.within f.number)

-- The outcome of the constructor.
abbrev pub Outcome : Bytes → Result Decimal → Type 0
Outcome token (ok d) = (length token ≤ c_max_num_chars) × IsRead d
Outcome token (err x) =
    ((x ≡ too_long (length token)) × (c_max_num_chars < length token))
    ⊎ ((x ≡ invalid_state) × (length token ≤ c_max_num_chars))

-- The constructor on any token at all: it succeeds or throws one of its two exceptions, the first
-- exactly if the token is longer than 48 characters; so it never comes to a write outside its array,
-- which would be the error `out_of_bounds`. Where it succeeds, the view is no longer than the array,
-- and the array holds digits and at most one point.
pub from_str-Outcome : (token : Bytes) → Outcome token (from_str token)
unfolding from_str
from_str-Outcome token = elim (Bool-cases (ltb c_max_num_chars (length token))) [
  | inl long ↦ rw long (inl (refl, ground arith))
  | inr short ↦
      let fits : length token ≤ c_max_num_chars = ground arith in
      rw short (
        normalized fits (scan before_digit token (written [] c_max_num_chars)) (
          scan-Scanned token before_digit [] c_max_num_chars c_max_num_chars fits (omega arith) tt))
]
  where
    normalized :
        length token ≤ c_max_num_chars
        → (r : Result Dst) → Scanned c_max_num_chars r
        → Outcome token (r >>= λ w. ok (normalize w))
    normalized fits (err x) scanned = inr (scanned, fits)
    normalized fits (ok w) filled = (fits, Filled-IsRead w filled)

pub copy-IsRead : (d : Decimal) → IsRead d → IsRead (copy d)
unfolding copy
copy-IsRead d h = record {
  chars_full = h.chars_full;
  view_within = h.view_within;
  number = h.number;
}

pub copy-IsOwn : (d : Decimal) → IsOwn (copy d)
unfolding copy
copy-IsOwn d = (view_size d.view, refl)

str-Number : (d : Decimal) → IsRead d → Number (str d) × (length (str d) ≤ c_max_num_chars)
unfolding str
str-Number d h =
    elim (d.view)
        as (λ v.
          v ≡ d.view
          → Number (view_chars d.chars v) × (length (view_chars d.chars v) ≤ c_max_num_chars)) [
            | own n ↦ λ e. (
              Number-take n d.chars h.number,
              omega (arith, h.view_within, length-take-le n d.chars, ap view_size e),
            )
            | static_zero ↦ λ e. ((inl (refl, inr (refl, (refl, tt)))), omega arith)
          ]
      refl

-- So the text of each such decimal can be compared.
pub IsRead-IsDecimal : (d : Decimal) → IsRead d → IsDecimal d
IsRead-IsDecimal d h =
    let text = str-Number d h in
    let frac = Number-frac_part (str d) text.0 in
    record { digits = frac.0; short = omega (arith, frac.1, text.1) }
