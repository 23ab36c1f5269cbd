-- ===== src/Sides/Checksum.antt =====
-- The checksum of a book, against the rule that the venue gives for it: the ten best asks and then
-- the ten best bids, each by its price and its quantity at the precisions of the pair, printed
-- without the point and without leading zeros.
use kraken_data_recorder.Base.{
  ℕ, zero, suc, ◌+◌, ◌≤◌, false, List, [], ◌∷◌, ◌++◌, if◌then◌else◌, ltb, ◌==◌, length, take, ◌≡◌,
  inl, inr, refl, ap, sym, ◌∙◌, arith, All, Bool-cases, Result, ok, err, bogus_crc32,
}
use kraken_data_recorder.Crc.{Crc}
use kraken_data_recorder.Decimal.{Decimal, Bytes, process, str_to}
use kraken_data_recorder.Decimal.Checksum.{strip_zeros, feed, feed-append, process-strip_zeros}
use kraken_data_recorder.Decimal.Digits.{Digits, fit, fit-Digits}
use kraken_data_recorder.Decimal.Layout.{Layout, Layout-Digits, IsOwn}
use kraken_data_recorder.Decimal.Print.{str_to-text_at}
use kraken_data_recorder.Messages.{Quote}
use kraken_data_recorder.Sides.{
  Side, Sides, c_crc32_depth, checksum_from, update_checksum, crc32, verify_checksum,
}

-- A text without its point.
abbrev pub without_point : Bytes → Bytes
without_point [] = []
without_point (c ∷ s) = if c == b'.' then without_point s else c ∷ without_point s

-- What of a decimal goes into the checksum.
abbrev pub checksum_digits : Decimal → ℕ → Bytes
checksum_digits d precision = strip_zeros (without_point (str_to d precision))

abbrev pub level_digits : ℕ → ℕ → Quote → Bytes
level_digits price_precision qty_precision (price, qty) =
    checksum_digits price price_precision ++ checksum_digits qty qty_precision

abbrev pub side_digits : ℕ → ℕ → List Quote → Bytes
side_digits pp qp [] = []
side_digits pp qp (level ∷ levels) = level_digits pp qp level ++ side_digits pp qp levels

-- The checksum by the rule.
abbrev pub book_checksum : Crc → Sides → ℕ
book_checksum crc s = crc.checksum (
    feed crc.process_byte crc.initial (
      side_digits s.price_precision s.qty_precision (take c_crc32_depth s.asks)
      ++ side_digits s.price_precision s.qty_precision (take c_crc32_depth s.bids)))

-- The array of the decimal has room for its text at the precision, as a copy of a decimal read
-- from a token mostly has.
pub record IsStored (precision : ℕ) (d : Decimal) : Type 0 where
  pub int : Bytes
  pub frac : Bytes
  pub layout : Layout d int frac
  pub is_own : IsOwn d
  pub has_room : length int + suc precision ≤ length d.chars

pub without_point-Digits : (i : Bytes) → Digits i → without_point i ≡ i
without_point-Digits [] h = refl
without_point-Digits (c ∷ i) h = ground (arith, h.0, without_point-Digits i h.1)

pub without_point-text :
    (i f : Bytes) → Digits i → Digits f → without_point (i ++ (b'.' ∷ f)) ≡ i ++ f
without_point-text [] f hi hf = without_point-Digits f hf
without_point-text (c ∷ i) f hi hf = ground (arith, hi.0, without_point-text i f hi.1 hf)

module _ {S : Type 0} (process_byte : S → ℕ → S) where
  process-checksum_digits :
      (d : Decimal) (register : S) (p : ℕ)
      → IsStored p d
      → process process_byte d register p ≡ ok (feed process_byte register (checksum_digits d p))
  process-checksum_digits d register p h =
      let digits = Layout-Digits h.layout in
      process-strip_zeros process_byte register p h.layout h.is_own h.has_room
      ∙ ap (λ (s : Bytes). ok (feed process_byte register (strip_zeros s)))
          (sym (
            ap without_point (str_to-text_at p h.layout)
            ∙ without_point-text h.int (fit p h.frac) digits.0 (fit-Digits p h.frac digits.1)))

abbrev pub StoredLevel : ℕ → ℕ → Quote → Type 0
StoredLevel pp qp (price, qty) = IsStored pp price × IsStored qp qty

-- All levels of the book are stored with room for its precisions.
abbrev pub IsStoredBook : Sides → Type 0
IsStoredBook s =
    All (StoredLevel s.price_precision s.qty_precision) s.asks
    × All (StoredLevel s.price_precision s.qty_precision) s.bids

module _ (crc : Crc) where
  open crc use {Register, initial, process_byte, checksum}

  checksum_from-digits :
      (s : Sides) (n depth : ℕ) (side : Side) (register : Register)
      → n + depth ≡ c_crc32_depth
      → All (StoredLevel s.price_precision s.qty_precision) side
      → checksum_from crc s depth side register
        ≡ ok (
            feed process_byte register
              (side_digits s.price_precision s.qty_precision (take n side)))
  unfolding checksum_from
  checksum_from-digits s zero depth [] register e h = refl
  checksum_from-digits s (suc n) depth [] register e h = refl
  checksum_from-digits s zero depth ((price, qty) ∷ side) register e h = ground arith
  checksum_from-digits s (suc n) depth ((price, qty) ∷ side) register e h =
      let pp = s.price_precision in
      let qp = s.qty_precision in
      let within : ltb c_crc32_depth (suc depth) ≡ false = ground arith in
      let after_price = feed process_byte register (checksum_digits price pp) in
      let after_qty = feed process_byte after_price (checksum_digits qty qp) in
      rw (within, process-checksum_digits process_byte price register pp h.0.0)
        (rw (process-checksum_digits process_byte qty after_price qp h.0.1) (
          checksum_from-digits s n (suc depth) side after_qty (omega arith) h.1
          ∙ ap ok (
              sym (
                feed-append process_byte register (level_digits pp qp (price, qty))
                  (side_digits pp qp (take n side))
                ∙ ap (λ (r : Register). feed process_byte r (side_digits pp qp (take n side)))
                    (feed-append process_byte register (checksum_digits price pp)
                      (checksum_digits qty qp))))))

  -- `crc32` of a book whose levels are stored with room is the checksum by the rule.
  pub crc32-book_checksum : (s : Sides) → IsStoredBook s → crc32 crc s ≡ ok (book_checksum crc s)
  unfolding crc32 update_checksum
  crc32-book_checksum s h =
      let asks = side_digits s.price_precision s.qty_precision (take c_crc32_depth s.asks) in
      let bids = side_digits s.price_precision s.qty_precision (take c_crc32_depth s.bids) in
      rw (checksum_from-digits s 10 0 s.asks initial refl h.0) (
        rw (checksum_from-digits s 10 0 s.bids (feed process_byte initial asks) refl h.1) (
          ap (λ (r : Register). ok (checksum r))
            (sym (feed-append process_byte initial asks bids))))

  -- What `verify_checksum` answers, by the rule.
  abbrev pub verdict : Sides → ℕ → Result (Unit {0})
  verdict s expected =
      if expected == book_checksum crc s
      then ok tt
      else err (bogus_crc32 expected (book_checksum crc s))

  pub verify_checksum-verdict :
      (s : Sides) (expected : ℕ)
      → IsStoredBook s
      → verify_checksum crc s expected ≡ verdict s expected
  unfolding verify_checksum
  verify_checksum-verdict s expected h =
      rw (crc32-book_checksum s h) (elim (Bool-cases (expected == book_checksum crc s)) [
        | inl same ↦ rw same
        | inr other ↦ rw other
      ])
