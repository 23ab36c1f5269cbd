-- ===== src/Sides/ToJson.antt =====
-- `sides_t::to_json_obj` (src/sides.cpp).
use kraken_data_recorder.Ascii.{text_of}
use kraken_data_recorder.Decimal
use kraken_data_recorder.Messages.{Quote, c_asks, c_bids}
use kraken_data_recorder.Messages.ToJson.{objs}
use kraken_data_recorder.Requests.{Json, string, array, object, Fields, field, no_fields}
use kraken_data_recorder.Sides.{Sides}

-- The object of a level: its price, as the name of the one member, and its quantity.
unfoldable pub level_fields : Sides → Quote → Fields
level_fields s (price, qty) =
    field (text_of (Decimal.str_to price s.price_precision))
      (string (text_of (Decimal.str_to qty s.qty_precision))) no_fields

unfoldable pub sides_to_json_obj : Sides → Json
unfolding level_fields objs
sides_to_json_obj s = object (
    field c_bids (array (objs (level_fields s) s.bids))
      (field c_asks (array (objs (level_fields s) s.asks)) no_fields))
