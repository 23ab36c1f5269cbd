-- ===== src/LevelBook/Text.antt =====
-- `level_book_t::str` (src/level_book.cpp).
use kraken_data_recorder.Ascii.{text_of}
use kraken_data_recorder.Base.{String, none, some, Result, ok, err, out_of_range}
use kraken_data_recorder.Decimal.{Bytes}
use kraken_data_recorder.LevelBook.{LevelBook}
use kraken_data_recorder.Messages.{c_symbol, c_side}
use kraken_data_recorder.Requests.{Json, string, object, field, no_fields}
use kraken_data_recorder.Sides.ToJson.{sides_to_json_obj}
use kraken_data_recorder.UnorderedMap.{lookup}

unfoldable pub str : (Json → Bytes) → LevelBook → String → Result Bytes
str serialize b symbol = elim (lookup symbol b.sides) [
  | none ↦ err out_of_range
  | some sides ↦
      let text = text_of (serialize (sides_to_json_obj sides)) in
      ok
        (serialize (object (field c_symbol (string symbol) (field c_side (string text) no_fields))))
]
