-- ===== src/Sides.antt =====
-- `sides_t` of include/sides.hpp and src/sides.cpp: the two sides of the book of one symbol. The
-- depth is the value of `static_cast<size_t>(m_book_depth)`. An operation that may throw returns
-- the state it leaves behind too: what it changed before the throw stays changed.
pub mod Order
pub mod Update
pub mod Depth
pub mod Checksum
pub mod Stored
pub mod Printed
pub mod Twins
pub mod Alike
pub mod Sorted
pub mod ToJson
use kraken_data_recorder.Base.{
  ℕ, suc, Bool, true, false, not, List, [], ◌∷◌, some, none, if◌then◌else◌, ltb, ◌==◌, length, take,
  replicate, Result, ok, err, bogus_crc32, ◌>>=◌,
}
use kraken_data_recorder.Crc.{Crc}
use kraken_data_recorder.Decimal
use kraken_data_recorder.Decimal.{Decimal, static_zero, c_max_num_chars, process}
use kraken_data_recorder.OrderedMap.{find, insert, erase, assign, insert_all}
use kraken_data_recorder.Messages.{Quote, Book}

abbrev pub Side : Type 0
Side = List Quote

-- `std::greater` and `std::less` on prices
abbrev pub bid_less : Decimal → Decimal → Bool
bid_less = Decimal.gt

abbrev pub ask_less : Decimal → Decimal → Bool
ask_less = Decimal.lt

pub record Sides : Type 0 where
  pub book_depth : ℕ
  pub price_precision : ℕ
  pub qty_precision : ℕ
  pub bids : Side
  pub asks : Side

-- The static `c_zero` of `apply_update`: `decimal_t("0")`.
abbrev pub c_zero : Decimal
c_zero = record { chars = replicate c_max_num_chars b'0'; view = static_zero }

-- The body of the loop of `apply_update`.
pub apply_quote : (Decimal → Decimal → Bool) → Side → Quote → Side
apply_quote less side (price, qty) = elim (find less price side) [
  | some _ ↦ if Decimal.eq qty c_zero then erase less price side else assign less price qty side
  | none ↦ insert less (price, qty) side
]

unfoldable pub apply_quotes : (Decimal → Decimal → Bool) → Side → List Quote → Side
apply_quotes less side [] = side
apply_quotes less side (quote ∷ quotes) = apply_quotes less (apply_quote less side quote) quotes

-- The erasure from `begin + m_book_depth` on.
unfoldable pub truncate : ℕ → Side → Side
truncate depth side = if ltb depth (length side) then take depth side else side

unfoldable pub apply_update : (Decimal → Decimal → Bool) → ℕ → List Quote → Side → Side
unfolding apply_quote apply_quotes truncate
apply_update less depth quotes side = truncate depth (apply_quotes less side quotes)

abbrev pub c_crc32_depth : ℕ
c_crc32_depth = 10

-- `clear`
unfoldable pub clear : Sides → Sides
clear s = record s { bids = []; asks = [] }

module _ (crc : Crc) where
  open crc use {Register, initial, process_byte, checksum}

  -- The loop of `update_checksum`, from a `depth` on.
  unfoldable pub checksum_from : Sides → ℕ → Side → Register → Result Register
  checksum_from s depth [] register = ok register
  checksum_from s depth ((price, qty) ∷ side) register =
      let later = process process_byte price register s.price_precision >>= λ register'.
      process process_byte qty register' s.qty_precision >>= λ register''.
      checksum_from s (suc depth) side register'' in
      if ltb c_crc32_depth (suc depth) then ok register else later

  unfoldable pub update_checksum : Sides → Side → Register → Result Register
  unfolding checksum_from
  update_checksum s side register = checksum_from s 0 side register

  unfoldable pub crc32 : Sides → Result ℕ
  unfolding update_checksum
  crc32 s = update_checksum s s.asks initial >>= λ register.
      update_checksum s s.bids register >>= λ register'. ok (checksum register')

  unfoldable pub verify_checksum : Sides → ℕ → Result (Unit {0})
  verify_checksum s expected = crc32 s >>= λ actual.
      if not (expected == actual) then err (bogus_crc32 expected actual) else ok tt

  unfoldable pub accept_snapshot : Sides → Book → Sides × Result (Unit {0})
  unfolding clear
  accept_snapshot s snapshot =
      let cleared = clear s in
      let filled = record cleared {
        bids = insert_all bid_less snapshot.bids cleared.bids;
        asks = insert_all ask_less snapshot.asks cleared.asks;
      } in
      (filled, verify_checksum filled snapshot.crc32)

  unfoldable pub accept_update : Sides → Book → Sides × Result (Unit {0})
  accept_update s update =
      let updated = record s {
        bids = apply_update bid_less s.book_depth update.bids s.bids;
        asks = apply_update ask_less s.book_depth update.asks s.asks;
      } in
      (updated, verify_checksum updated update.crc32)
