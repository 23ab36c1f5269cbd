-- ===== src/Messages/ToJson.antt =====
-- `book_t::to_json_obj` (src/book.cpp), `trades_t::to_json_obj` (src/trades.cpp), `header_t::to_json_obj` (src/header.cpp) and
-- `instrument_t::to_json_obj` (src/instrument.cpp), over the generated `to_json_obj` of assets and
-- pairs, `std::strtod` and the date library.
use kraken_data_recorder.Ascii.{text_of}
use kraken_data_recorder.Base.{ℕ, List, [], ◌∷◌}
use kraken_data_recorder.Constants.{c_response_data, c_instrument_pairs, c_instrument_assets}
use kraken_data_recorder.Decimal
use kraken_data_recorder.Decimal.{Bytes, Decimal}
use kraken_data_recorder.Messages.{
  Double, Quote, Header, Book, Asset, Pair, Instrument, Trade, Trades, c_channel, c_type, c_recv_tm,
  c_asks, c_bids, c_checksum, c_price, c_qty, c_side, c_symbol, c_timestamp,
}
use kraken_data_recorder.Requests.{
  Json, string, number, integer, double, array, object, Items, no_items, item, Fields, no_fields,
  field,
}
use kraken_data_recorder.Timestamp.{Date, to_iso_8601}

-- The array that `std::transform` fills.
unfoldable pub objs : {A : Type 0} → (A → Fields) → List A → Items
objs fields_of [] = no_items
objs fields_of (a ∷ entries) = item (object (fields_of a)) (objs fields_of entries)

-- The object of the three messages: the header's members around `data`.
abbrev response_of : Header → Json → Json
response_of header content = object (
    field c_channel (string header.channel)
      (field c_response_data content (field c_type (string header.kind) no_fields)))

unfoldable pub instrument_to_json_obj : (Asset → Fields) → (Pair → Fields) → Instrument → Json
unfolding objs
instrument_to_json_obj asset_fields pair_fields response = response_of response.header (
    object (
      field c_instrument_pairs (array (objs pair_fields response.pairs))
        (field c_instrument_assets (array (objs asset_fields response.assets)) no_fields)))

-- What the writers call besides Boost, and what Boost makes of an enumerator.
pub record Writers : Type 0 where
  pub strtod : Bytes → Double
  pub date : Date
  pub enumerator : ℕ → Json

module _ (writers : Writers) where
  open writers use {strtod, date, enumerator}

  unfoldable pub double_value : Decimal → ℕ → Double
  double_value d precision = strtod (Decimal.str_to d precision)

  -- The object of an ask or a bid.
  unfoldable pub quote_fields : ℕ → ℕ → Quote → Fields
  unfolding double_value
  quote_fields price_precision qty_precision (price, qty) =
      field c_price (double (double_value price price_precision))
        (field c_qty (double (double_value qty qty_precision)) no_fields)

  unfoldable pub book_to_json_obj : ℕ → ℕ → Book → Json
  unfolding objs quote_fields
  book_to_json_obj price_precision qty_precision book =
      let quotes : List Quote → Json =
        λ side. array (objs (quote_fields price_precision qty_precision) side) in
      let content = object (
        field c_asks (quotes book.asks) (
          field c_bids (quotes book.bids) (
            field c_checksum (number book.crc32) (
              field c_symbol (string book.symbol)
                (field c_timestamp (string (to_iso_8601 date book.timestamp)) no_fields))))) in
      response_of book.header (array (item content no_items))

  unfoldable pub header_to_json_obj : Header → Json
  header_to_json_obj header = object (
      field c_recv_tm (string (to_iso_8601 date header.recv_tm))
        (field c_channel (string header.channel) (field c_type (string header.kind) no_fields)))

  -- The object of a trade.
  unfoldable pub trade_fields : ℕ → ℕ → Trade → Fields
  trade_fields price_precision qty_precision trade = field "ord_type" (enumerator trade.ord_type) (
      field c_price (string (text_of (Decimal.str_to trade.price price_precision))) (
        field c_qty (string (text_of (Decimal.str_to trade.qty qty_precision))) (
          field c_side (enumerator trade.side) (
            field c_symbol (string trade.symbol) (
              field c_timestamp (string (to_iso_8601 date trade.timestamp))
                (field "trade_id" (integer trade.trade_id) no_fields))))))

  unfoldable pub trades_to_json_obj : ℕ → ℕ → Trades → Json
  unfolding objs trade_fields
  trades_to_json_obj price_precision qty_precision response =
      response_of response.header
        (array (objs (trade_fields price_precision qty_precision) response.trades))
