-- ===== src/Config/RoundTrip.antt =====
-- `config_t::from_json` on what `to_json_obj` writes.
use kraken_data_recorder.Base.{◌<◌, ◌^◌, true, [], ok, ◌≡◌, refl}
use kraken_data_recorder.Requests.{string, number, integer}
use kraken_data_recorder.Simdjson.{Simdjson}
use kraken_data_recorder.Simdjson.Reading.{Reading, member, IsInt64}
use kraken_data_recorder.Config.{Config, optional, from_json, to_json_obj}

module _ (json : Simdjson) where
  -- Of what `to_json_obj` writes, `from_json` reads back the interval, the host, the port, the
  -- directory and the depth; the filter and the two switches are lost.
  pub from_json-to_json_obj :
      (reading : Reading json) (c : Config)
      → c.ping_interval_secs < 2 ^ 64
      → IsInt64 c.book_depth
      → from_json json (reading.value_of (to_json_obj c))
        ≡ ok (record c { pair_filter = []; capture_book = true; capture_trades = true })
  unfolding from_json to_json_obj optional member
  from_json-to_json_obj reading c small depth =
      rw
        (
          reading.find_member _ "ping_interval_secs" (number c.ping_interval_secs) refl,
          reading.find_member _ "kraken_host" (string c.kraken_host) refl,
          reading.find_member _ "kraken_port" (string c.kraken_port) refl,
          reading.find_member _ "parquet_dir" (string c.parquet_dir) refl,
          reading.find_member _ "book_depth" (integer c.book_depth) refl,
          reading.read_number c.ping_interval_secs small,
          reading.read_string c.kraken_host,
          reading.read_string c.kraken_port,
          reading.read_string c.parquet_dir,
          reading.read_integer c.book_depth depth,
        )
        refl
