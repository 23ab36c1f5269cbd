-- ===== src/Decimal/Checksum.antt =====
-- `process`: the characters of a decimal that go into the checksum of a book.
use kraken_data_recorder.Base.{
  ℕ, suc, ◌+◌, ◌≤◌, [], ◌∷◌, ◌++◌, ◌≡◌, inl, inr, refl, ap, arith, length, Bool-cases, ok, true,
  false, if◌then◌else◌, ◌==◌, Bool,
}
use kraken_data_recorder.Decimal.{
  Bytes, is_digit, Decimal, Progress, process_char, process_chars, process,
}
use kraken_data_recorder.Decimal.Digits.{Digits, fit, length-fit, fit-Digits}
use kraken_data_recorder.Decimal.Layout.{Layout, Layout-Digits, IsOwn}
use kraken_data_recorder.Decimal.Print.{str_view-Viewed}

-- A digit string with no '0' in front.
abbrev pub strip_zeros : Bytes → Bytes
strip_zeros [] = []
strip_zeros (c ∷ s) = if c == b'0' then strip_zeros s else c ∷ s

module _ {S : Type 0} (process_byte : S → ℕ → S) where
  -- `process_byte` on each of some bytes in turn.
  abbrev pub feed : S → Bytes → S
  feed crc [] = crc
  feed crc (c ∷ s) = feed (process_byte crc c) s

  pub feed-append : (crc : S) (a b : Bytes) → feed crc (a ++ b) ≡ feed (feed crc a) b
  feed-append crc [] b = refl
  feed-append crc (c ∷ a) b = feed-append (process_byte crc c) a b

  abbrev progress : S → Bool → Bool → ℕ → Progress process_byte
  progress crc leading trailing n = record {
    crc32 = crc;
    in_leading_zeros = leading;
    in_trailing_digits = trailing;
    num_trailing_digits = n;
  }

  char_digit :
      (c : ℕ) (crc : S) (trailing : Bool) (n : ℕ)
      → is_digit c ≡ true
      → process_char process_byte c (progress crc false trailing n)
        ≡ progress (process_byte crc c) false trailing (if trailing then n + 1 else n)
  unfolding process_char
  char_digit c crc trailing n h = ground arith

  char_leading :
      (c : ℕ) (crc : S) (trailing : Bool) (n : ℕ)
      → is_digit c ≡ true
      → process_char process_byte c (progress crc true trailing n) ≡ (
          if c == b'0'
          then progress crc true trailing n
          else progress (process_byte crc c) false trailing n)
  unfolding process_char
  char_leading c crc trailing n h = ground arith

  char_point :
      (crc : S) (leading trailing : Bool) (n : ℕ)
      → process_char process_byte b'.' (progress crc leading trailing n)
        ≡ progress crc leading true n
  unfolding process_char
  char_point crc leading trailing n = ground arith

  fraction :
      (p n : ℕ) (f : Bytes) (crc : S)
      → Digits f
      → n + length f ≤ p
      → process_chars process_byte p f (progress crc false true n) ≡ feed crc f
  unfolding process_chars
  fraction p n [] crc h b = refl
  fraction p n (c ∷ f) crc h b =
      rw (char_digit c crc true n h.0)
        (ground (arith, fraction p (n + 1) f (process_byte crc c) h.1 (omega arith)))

  leading_fraction :
      (p n : ℕ) (f : Bytes) (crc : S)
      → Digits f
      → n + length f ≤ p
      → process_chars process_byte p f (progress crc true true n) ≡ feed crc (strip_zeros f)
  unfolding process_chars
  leading_fraction p n [] crc h b = refl
  leading_fraction p n (c ∷ f) crc h b =
      rw (char_leading c crc true n h.0) (elim (Bool-cases (c == b'0')) [
        | inl skipped ↦ rw skipped (ground (arith, leading_fraction p n f crc h.1 (omega arith)))
        | inr fed ↦ rw fed (ground (arith, fraction p n f (process_byte crc c) h.1 (omega arith)))
      ])

  integer :
      (p : ℕ) (i f : Bytes) (crc : S)
      → Digits i
      → Digits f
      → length f ≤ p
      → process_chars process_byte p (i ++ (b'.' ∷ f)) (progress crc false false 0)
        ≡ feed crc (i ++ f)
  unfolding process_chars
  integer p [] f crc hi hf b =
      rw (char_point crc false false 0) (fraction p 0 f crc hf (omega arith))
  integer p (c ∷ i) f crc hi hf b =
      rw (char_digit c crc false 0 hi.0) (integer p i f (process_byte crc c) hi.1 hf b)

  leading_integer :
      (p : ℕ) (i f : Bytes) (crc : S)
      → Digits i
      → Digits f
      → length f ≤ p
      → process_chars process_byte p (i ++ (b'.' ∷ f)) (progress crc true false 0)
        ≡ feed crc (strip_zeros (i ++ f))
  unfolding process_chars
  leading_integer p [] f crc hi hf b =
      rw (char_point crc true false 0) (leading_fraction p 0 f crc hf (omega arith))
  leading_integer p (c ∷ i) f crc hi hf b =
      rw (char_leading c crc false 0 hi.0) (elim (Bool-cases (c == b'0')) [
        | inl skipped ↦ rw skipped (leading_integer p i f crc hi.1 hf b)
        | inr fed ↦ rw fed (integer p i f (process_byte crc c) hi.1 hf b)
      ])

  -- For a decimal with a view of its own array, and room in it, `process` feeds the digits of the
  -- decimal at the precision, without the point and without leading zeros, and nothing else.
  pub process-strip_zeros :
      {d : Decimal} {i f : Bytes} (crc : S) (p : ℕ)
      → Layout d i f
      → IsOwn d
      → length i + suc p ≤ length d.chars
      → process process_byte d crc p ≡ ok (feed crc (strip_zeros (i ++ fit p f)))
  unfolding process
  process-strip_zeros {d} {i} {f} crc p h o room =
      let v = str_view-Viewed p h o room in
      let digits = Layout-Digits h in
      rw v.views (
        ap ok (
          leading_integer p i (fit p f) crc digits.0 (fit-Digits p f digits.1)
            (omega (arith, length-fit p f))))
