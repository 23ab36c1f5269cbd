-- ===== src/Messages/FromJson.antt =====
-- `book_t::from_json` (src/book.cpp), `instrument_t::from_json` (src/instrument.cpp) and
-- `trades_t::from_json` (src/trades.cpp). The time of receipt, the date library and the generated
-- parsers are parameters.
use text.Mathlib.Text.{◌==◌ as str_eq}
use kraken_data_recorder.Base.{
  ℤ, Bool, true, false, List, [], ◌∷◌, String, Result, ok, err, multiple_data, ◌>>=◌,
}
use kraken_data_recorder.Constants.{c_response_data, c_instrument_pairs, c_instrument_assets}
use kraken_data_recorder.Decimal
use kraken_data_recorder.Decimal.{Decimal}
use kraken_data_recorder.Messages.{
  Header, Quote, Book, Asset, Pair, Instrument, Trade, Trades, c_update, c_channel, c_type, c_asks,
  c_bids, c_checksum, c_price, c_qty, c_symbol, c_timestamp,
}
use kraken_data_recorder.Simdjson.{Simdjson}
use kraken_data_recorder.Timestamp.{Date, epoch, from_iso_8601}

-- What the parsers call besides simdjson.
pub record Readers (Value : Type 0) : Type 0 where
  pub date : Date
  pub asset : Value → Result Asset
  pub pair : Value → Result Pair
  pub trade : Value → Result Trade

module _ (json : Simdjson) (readers : Readers json.Value) (now : ℤ) where
  open json use {Value, find_field, get_string, get_uint64, get_object, elements, raw_json_token}
  open readers use {date}

  unfoldable pub string_field : Value → String → Result String
  string_field value key = find_field value key >>= get_string

  unfoldable pub extract_decimal : Value → String → Result Decimal
  extract_decimal obj field = find_field obj field >>= raw_json_token >>= Decimal.from_str

  -- The header, as each of the three begins.
  unfoldable pub read_header : Value → Result Header
  unfolding string_field
  read_header response = do
    channel ← string_field response c_channel
    kind ← string_field response c_type
    ok (record { recv_tm = now; channel = channel; kind = kind })

  -- The body of the loops over the quotes: the vector holds copies of what was read.
  unfoldable pub read_quote : Result Value → Result Quote
  unfolding extract_decimal
  read_quote element = do
    value ← element
    obj ← get_object value
    price ← extract_decimal obj c_price
    qty ← extract_decimal obj c_qty
    ok (Decimal.copy price, Decimal.copy qty)

  unfoldable pub read_quotes : List (Result Value) → Result (List Quote)
  unfolding read_quote
  read_quotes [] = ok []
  read_quotes (element ∷ rest) = do
    quote ← read_quote element
    quotes ← read_quotes rest
    ok (quote ∷ quotes)

  unfoldable pub quotes_field : Value → String → Result (List Quote)
  unfolding read_quotes
  quotes_field entry key = find_field entry key >>= elements >>= read_quotes

  -- The time stamp, which only an update has.
  unfoldable pub read_timestamp : Bool → Value → Result ℤ
  unfolding string_field from_iso_8601
  read_timestamp true entry = do text ← string_field entry c_timestamp; ok (from_iso_8601 date text)
  read_timestamp false entry = ok epoch

  -- The body of the loop over `data`.
  unfoldable pub read_entry : Header → Value → Result Book
  unfolding quotes_field string_field read_timestamp
  read_entry header entry = do
    asks ← quotes_field entry c_asks
    bids ← quotes_field entry c_bids
    crc32 ← find_field entry c_checksum >>= get_uint64
    symbol ← string_field entry c_symbol
    timestamp ← read_timestamp (str_eq header.kind c_update) entry
    ok (record {
      header = header;
      asks = asks;
      bids = bids;
      crc32 = crc32;
      symbol = symbol;
      timestamp = timestamp;
    })

  abbrev pub no_book : Header → Book
  no_book header = record {
    header = header;
    asks = [];
    bids = [];
    crc32 = 0;
    symbol = "";
    timestamp = epoch;
  }

  -- The loop over `data`: a second entry is refused before it is looked at.
  unfoldable pub read_data : Header → List (Result Value) → Result Book
  unfolding read_entry
  read_data header [] = ok (no_book header)
  read_data header (entry ∷ []) = entry >>= read_entry header
  read_data header (entry ∷ second ∷ more) =
      entry >>= read_entry header >>= λ book. err multiple_data

  unfoldable pub book_from_json : Value → Result Book
  unfolding read_header read_data
  book_from_json response = do
    header ← read_header response
    entries ← find_field response c_response_data >>= elements
    read_data header entries

  -- A loop that reads each object of an array.
  unfoldable pub read_objects :
      {A : Type 0} → (Value → Result A) → List (Result Value) → Result (List A)
  read_objects read [] = ok []
  read_objects read (element ∷ rest) = do
    value ← element
    obj ← get_object value
    item ← read obj
    items ← read_objects read rest
    ok (item ∷ items)

  unfoldable pub instrument_from_json : Value → Result Instrument
  unfolding read_header read_objects
  instrument_from_json response = do
    header ← read_header response
    assets ←
        find_field response c_response_data
        >>= (λ value. find_field value c_instrument_assets)
        >>= elements
        >>= read_objects readers.asset
    pairs ←
        find_field response c_response_data
        >>= (λ value. find_field value c_instrument_pairs)
        >>= elements
        >>= read_objects readers.pair
    ok (record { header = header; assets = assets; pairs = pairs })

  unfoldable pub trades_from_json : Value → Result Trades
  unfolding read_header read_objects
  trades_from_json response = do
    header ← read_header response
    trades ← find_field response c_response_data >>= elements >>= read_objects readers.trade
    ok (record { header = header; trades = trades })
