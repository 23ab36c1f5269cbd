-- ===== src/TestData.antt =====
-- Small data for the instances: messages, a reader of JSON values, a recorder and its engine.
use kraken_data_recorder.Base.{
  ℕ, ◌+◌, pos, true, false, List, [], ◌∷◌, Option, none, some, Result, ok, err, out_of_range, refl,
}
use kraken_data_recorder.Config.{default_config}
use kraken_data_recorder.Simdjson.Reading.{Reading, member, values_of}
use kraken_data_recorder.Crc.{Crc}
use kraken_data_recorder.Decimal
use kraken_data_recorder.Decimal.{from_str}
use kraken_data_recorder.Engine.{Environment}
use kraken_data_recorder.Messages.{Header, Pair, Asset, Book, Trade, Trades, Instrument}
use kraken_data_recorder.Messages.FromJson.{Readers}
use kraken_data_recorder.Messages.ToJson.{Writers}
use kraken_data_recorder.Requests.{
  Json, string, number, double, integer, array, object, item, no_items, field, no_fields,
}
use kraken_data_recorder.Session.{Session, new_session, process_wait}
use kraken_data_recorder.Session.Chain.{filled}
use kraken_data_recorder.Sides.{Sides}
use kraken_data_recorder.Simdjson.{Simdjson}
use kraken_data_recorder.Timestamp.{Date}
use kraken_data_recorder.Recorder.{
  Recorder, FileWriters, WritersWork, new_recorder, accept_instrument,
}
use kraken_data_recorder.Recorder.Loop.{Event, completed, process_timer, interrupted}
use kraken_data_recorder.Recorder.Parse.{environment_of}

-- A reader for JSON values themselves, in which a number is its own digit.
abbrev pub found : Option Json → Result Json
found none = err out_of_range
found (some value) = ok value

abbrev pub toy_json : Simdjson
toy_json = record {
  Value = Json;
  iterate = λ text. ok (
      object (
        field "channel" (string "book") (
          field "type" (string "update") (
            field "data"
              (array (
                item
                  (object (
                    field "asks"
                      (array (
                        item (object (field "price" (number 5) (field "qty" (number 7) no_fields)))
                          no_items))
                      (field "bids" (array no_items) (
                        field "checksum" (number 0) (
                          field "symbol" (string "BTC/USD")
                            (field "timestamp" (string "") no_fields))))))
                  no_items))
              no_fields))));
  find_field =
      λ value key. elim value [ object fields ↦ found (member key fields) | _ ↦ err out_of_range ];
  get_string = λ value. elim value [ string text ↦ ok text | _ ↦ err out_of_range ];
  get_int64 = λ value. elim value [ integer i ↦ ok i | _ ↦ err out_of_range ];
  get_uint64 = λ value. elim value [ number n ↦ ok n | _ ↦ err out_of_range ];
  get_object = λ value. ok value;
  elements = λ value. elim value [
    | array items ↦ ok (values_of (λ value. value) items)
    | _ ↦ err out_of_range
  ];
  raw_json_token = λ value. elim value [
    | number n ↦ ok ((b'0' + n) ∷ [])
    | double bits ↦ ok ((b'0' + bits) ∷ [])
    | _ ↦ err out_of_range
  ];
  to_json_string = λ value. ok [];
}

abbrev pub toy_reading : Reading toy_json
toy_reading = record {
  value_of = λ value. value;
  find_member = λ fields key value has. rw has refl;
  read_array = λ items. refl;
  read_object = λ fields. refl;
  read_string = λ text. refl;
  read_number = λ n small. refl;
  read_integer = λ i small. refl;
}

-- Every text is the time 1.
abbrev pub toy_date : Date
toy_date = record { parse = λ format text. some (pos 1); format = λ format micros. "" }

abbrev pub toy_readers : Readers Json
toy_readers = record {
  date = toy_date;
  asset = λ value. err out_of_range;
  pair = λ value. err out_of_range;
  trade = λ value. err out_of_range;
}

abbrev pub one_book : Json
one_book = elim (toy_json.iterate []) [ ok doc ↦ doc | err x ↦ string "" ]

abbrev pub toy_crc : Crc
toy_crc = record {
  Register = ℕ;
  initial = 0;
  process_byte = λ register byte. byte;
  checksum = λ register. register;
}

abbrev pub header : Header
header = record { recv_tm = pos 0; channel = "book"; kind = "update" }

abbrev pub asset : Asset
asset = record {
  borrowable = true;
  collateral_value = 0;
  id = "BTC";
  margin_rate = none;
  precision = pos 10;
  precision_display = pos 5;
  status = pos 0;
}

abbrev pub pair : Pair
pair = record {
  base = "BTC";
  cost_min = 0;
  cost_precision = pos 5;
  has_index = true;
  margin_initial = none;
  marginable = false;
  position_limit_long = none;
  position_limit_short = none;
  price_increment = 0;
  price_precision = 1;
  qty_increment = 0;
  qty_min = 0;
  qty_precision = 8;
  quote = "USD";
  status = pos 0;
  symbol = "BTC/USD";
}

abbrev pub instrument : Instrument
instrument = record { header = header; assets = asset ∷ []; pairs = pair ∷ [] }

abbrev pub bogus_book : Book
bogus_book = record {
  header = header;
  asks = [];
  bids = [];
  crc32 = 5;
  symbol = "BTC/USD";
  timestamp = pos 0;
}

abbrev pub good_book : Book
good_book = record bogus_book { crc32 = 0 }

abbrev pub disk : FileWriters
disk = record {
  assets = λ calls batch. ok tt;
  pairs = λ calls batch. ok tt;
  books = λ calls batch. ok tt;
  trades = λ calls batch. ok tt;
}

pub disk-WritersWork : WritersWork disk
disk-WritersWork = (λ calls batch. refl, λ calls batch. refl)

abbrev pub recorder : Recorder
recorder = (accept_instrument instrument (new_recorder disk default_config)).0

abbrev pub trade : Trade
trade = record {
  ord_type = b'm';
  price = Decimal.default [];
  qty = Decimal.default [];
  side = b'b';
  symbol = "ETH/USD";
  timestamp = pos 0;
  trade_id = pos 1;
}

abbrev pub trades : Trades
trades = record { header = header; trades = trade ∷ [] }

abbrev pub env : Environment Recorder
env =
    environment_of toy_json toy_readers (λ value. ok tt) (λ value. pos 0) toy_crc (λ json. [])
      (λ sent msg. (false, 0)) default_config

abbrev pub events : List Event
events = completed (filled false (b'{' ∷ b'}' ∷ []) 2) ∷ process_timer true 5 ∷ interrupted ∷ []

abbrev pub running : Session
running = record new_session { keep_processing = true; pending = process_wait false ∷ [] }

abbrev pub fresh : Sides
fresh = record { book_depth = 1000; price_precision = 1; qty_precision = 8; bids = []; asks = [] }

abbrev pub quiet_env : Environment Recorder
quiet_env =
    environment_of toy_json toy_readers (λ value. ok tt) (λ value. pos 0) toy_crc (λ json. [])
      (λ sent msg. (false, 0)) (record default_config { capture_book = false })

abbrev pub queue : List Book
queue = bogus_book ∷ bogus_book ∷ []

abbrev pub exact_readers : Readers Json
exact_readers = record toy_readers { asset = λ value. ok asset; pair = λ value. ok pair }

-- Every number is read as 7.
abbrev pub toy_writers : Writers
toy_writers = record { strtod = λ text. 7; date = toy_date; enumerator = number }

abbrev pub quoted_book : Book
quoted_book = record bogus_book { asks = (trade.price, trade.qty) ∷ [] }
