-- ===== src/Config.antt =====
-- `config_t` of include/config.hpp and src/config.cpp: what the program is started with. A depth is
-- an `int64_t`, as model/depth.json has it, and the filter is the list of its symbols.
pub mod RoundTrip
use kraken_data_recorder.Base.{ℕ, ℤ, pos, Bool, true, List, [], ◌∷◌, String, Result, ok, err, ◌>>=◌}
use kraken_data_recorder.Decimal.{Bytes}
use kraken_data_recorder.Requests.{
  Json, string, number, integer, boolean, array, object, field, no_fields, symbol_objs,
}
use kraken_data_recorder.Simdjson.{Simdjson}

abbrev pub c_book_depth : String
c_book_depth = "book_depth"

abbrev pub c_capture_book : String
c_capture_book = "capture_book"

abbrev pub c_capture_trades : String
c_capture_trades = "capture_trades"

abbrev pub c_kraken_host : String
c_kraken_host = "kraken_host"

abbrev pub c_kraken_port : String
c_kraken_port = "kraken_port"

abbrev pub c_pair_filter : String
c_pair_filter = "pair_filter"

abbrev pub c_parquet_dir : String
c_parquet_dir = "parquet_dir"

abbrev pub c_ping_interval_secs : String
c_ping_interval_secs = "ping_interval_secs"

abbrev pub c_default_ping_interval_secs : ℕ
c_default_ping_interval_secs = 30

pub record Config : Type 0 where
  pub ping_interval_secs : ℕ
  pub kraken_host : String
  pub kraken_port : String
  pub pair_filter : List String
  pub parquet_dir : String
  pub book_depth : ℤ
  pub capture_book : Bool
  pub capture_trades : Bool

-- The initial values of the members.
abbrev pub default_config : Config
default_config = record {
  ping_interval_secs = c_default_ping_interval_secs;
  kraken_host = "ws.kraken.com";
  kraken_port = "443";
  pair_filter = [];
  parquet_dir = "/tmp";
  book_depth = pos 1000;
  capture_book = true;
  capture_trades = true;
}

unfoldable pub to_json_obj : Config → Json
unfolding symbol_objs
to_json_obj c = object (
    field c_book_depth (integer c.book_depth) (
      field c_capture_book (boolean c.capture_book) (
        field c_capture_trades (boolean c.capture_trades) (
          field c_kraken_host (string c.kraken_host) (
            field c_kraken_port (string c.kraken_port) (
              field c_pair_filter (array (symbol_objs c.pair_filter)) (
                field c_parquet_dir (string c.parquet_dir)
                  (field c_ping_interval_secs (number c.ping_interval_secs) no_fields))))))))

module _ (json : Simdjson) where
  open json use {Value, iterate, find_field, get_string, get_int64, get_uint64}

  -- What each of the tests does: a member that is not there leaves the configuration as it is, and
  -- one that cannot be read throws.
  unfoldable pub optional :
      {A : Type 0}
      → Result Value
      → (Value → Result A)
      → (A → Config → Config)
      → Config
      → Result Config
  optional (err missing) read put c = ok c
  optional (ok value) read put c = read value >>= λ a. ok (put a c)

  unfoldable pub from_json : Value → Result Config
  unfolding optional
  from_json doc = do
    pinged ←
        optional (find_field doc c_ping_interval_secs) get_uint64
          (λ n c. record c { ping_interval_secs = n }) default_config
    hosted ←
        optional (find_field doc c_kraken_host) get_string
          (λ text c. record c { kraken_host = text }) pinged
    ported ←
        optional (find_field doc c_kraken_port) get_string
          (λ text c. record c { kraken_port = text }) hosted
    stored ←
        optional (find_field doc c_parquet_dir) get_string
          (λ text c. record c { parquet_dir = text }) ported
    optional (find_field doc c_book_depth) get_int64 (λ val c. record c { book_depth = val }) stored

  unfoldable pub from_json_str : Bytes → Result Config
  unfolding from_json
  from_json_str json_str = iterate json_str >>= from_json
