-- ===== src/Simdjson.antt =====
-- The part of simdjson's on-demand interface that the parsers call. Each call may throw; what the
-- elements of an array are is found out when each of them is used.
pub mod Reading
use kraken_data_recorder.Base.{ℕ, ℤ, List, String, Result}
use kraken_data_recorder.Decimal.{Bytes}

pub record Simdjson : Type 1 where
  pub Value : Type 0
  pub iterate : Bytes → Result Value
  pub find_field : Value → String → Result Value
  pub get_string : Value → Result String
  pub get_int64 : Value → Result ℤ
  pub get_uint64 : Value → Result ℕ
  pub get_object : Value → Result Value
  pub elements : Value → Result (List (Result Value))
  pub raw_json_token : Value → Result Bytes
  pub to_json_string : Value → Result Bytes
