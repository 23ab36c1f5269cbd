-- ===== src/Messages.antt =====
-- The messages that the program passes round: `header_t` (include/header.hpp), `book_t`
-- (include/book.hpp), and the generated `asset_t`, `pair_t`, `trade_t` with the members that
-- model/asset.json, model/pair.json and model/trade.json list. A `double` is its 64 bits, since the
-- program only passes it on; a precision is a natural number; an enumeration is its value.
pub mod FromJson
pub mod Decoded
pub mod ToJson
pub mod RoundTrip
pub mod BookRoundTrip
use kraken_data_recorder.Base.{ℕ, ℤ, Bool, List, String, Option}
use kraken_data_recorder.Decimal.{Decimal}

abbrev pub Double : Type 0
Double = ℕ

abbrev pub Quote : Type 0
Quote = Decimal × Decimal

pub record Header : Type 0 where
  pub recv_tm : ℤ
  pub channel : String
  pub kind : String

pub record Book : Type 0 where
  pub header : Header
  pub asks : List Quote
  pub bids : List Quote
  pub crc32 : ℕ
  pub symbol : String
  pub timestamp : ℤ

-- The names of the members of a header and of a book.
abbrev pub c_channel : String
c_channel = "channel"

abbrev pub c_type : String
c_type = "type"

abbrev pub c_recv_tm : String
c_recv_tm = "recv_tm"

abbrev pub c_asks : String
c_asks = "asks"

abbrev pub c_bids : String
c_bids = "bids"

abbrev pub c_checksum : String
c_checksum = "checksum"

abbrev pub c_price : String
c_price = "price"

abbrev pub c_qty : String
c_qty = "qty"

abbrev pub c_side : String
c_side = "side"

abbrev pub c_symbol : String
c_symbol = "symbol"

abbrev pub c_timestamp : String
c_timestamp = "timestamp"

abbrev pub c_snapshot : String
c_snapshot = "snapshot"

abbrev pub c_update : String
c_update = "update"

pub record Pair : Type 0 where
  pub base : String
  pub cost_min : Double
  pub cost_precision : ℤ
  pub has_index : Bool
  pub margin_initial : Option Double
  pub marginable : Bool
  pub position_limit_long : Option ℤ
  pub position_limit_short : Option ℤ
  pub price_increment : Double
  pub price_precision : ℕ
  pub qty_increment : Double
  pub qty_min : Double
  pub qty_precision : ℕ
  pub quote : String
  pub status : ℤ
  pub symbol : String

pub record Asset : Type 0 where
  pub borrowable : Bool
  pub collateral_value : Double
  pub id : String
  pub margin_rate : Option Double
  pub precision : ℤ
  pub precision_display : ℤ
  pub status : ℤ

pub record Trade : Type 0 where
  pub ord_type : ℕ
  pub price : Decimal
  pub qty : Decimal
  pub side : ℕ
  pub symbol : String
  pub timestamp : ℤ
  pub trade_id : ℤ

pub record Instrument : Type 0 where
  pub header : Header
  pub assets : List Asset
  pub pairs : List Pair

pub record Trades : Type 0 where
  pub header : Header
  pub trades : List Trade
