-- ===== src/Recorder/Parse.antt =====
-- The parser that the engine has: simdjson, and the `from_json` functions over it. `now_at` is the
-- time of receipt of a document, which the clock gives.
use kraken_data_recorder.Base.{ℤ, Option, none, some, String, Result, ok, err, ◌>>=◌}
use kraken_data_recorder.Config.{Config}
use kraken_data_recorder.Constants.{c_response_channel, c_response_method}
use kraken_data_recorder.Crc.{Crc}
use kraken_data_recorder.Decimal.{Bytes}
use kraken_data_recorder.Engine.{Parser, Environment}
use kraken_data_recorder.Messages.{c_type}
use kraken_data_recorder.Messages.FromJson.{
  Readers, book_from_json, instrument_from_json, trades_from_json,
}
use kraken_data_recorder.Recorder.{Recorder, sink_of}
use kraken_data_recorder.Requests.{Json}
use kraken_data_recorder.Session.{Write}
use kraken_data_recorder.Simdjson.{Simdjson}

-- `get(buffer) == simdjson::SUCCESS`
abbrev pub got : Result String → Option String
got (err failed) = none
got (ok text) = some text

module _ (json : Simdjson) (readers : Readers json.Value) (pong : json.Value → Result (Unit {0}))
    (now_at : json.Value → ℤ) where
  abbrev pub parser_of : Parser
  parser_of = record {
    Document = json.Value;
    iterate = json.iterate;
    channel = λ doc. got (json.find_field doc c_response_channel >>= json.get_string);
    method = λ doc. got (json.find_field doc c_response_method >>= json.get_string);
    kind = λ doc. got (json.find_field doc c_type >>= json.get_string);
    instrument = λ doc. instrument_from_json json readers (now_at doc) doc;
    book = λ doc. book_from_json json readers (now_at doc) doc;
    trades = λ doc. trades_from_json json readers (now_at doc) doc;
    pong = λ doc. json.get_object doc >>= pong;
    to_json_string = json.to_json_string;
  }

  -- The engine that `main` makes, with its sink.
  abbrev pub environment_of : Crc → (Json → Bytes) → Write → Config → Environment Recorder
  environment_of crc serialize write config = record {
    config = config;
    parser = parser_of;
    serialize = serialize;
    write = write;
    sink = sink_of crc config;
  }
