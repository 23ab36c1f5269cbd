-- ===== src/Timestamp.antt =====
-- `timestamp_t` of include/timestamp.hpp. A time stamp is its microseconds since the epoch. The
-- date library is a parameter, of which nothing is assumed.
use kraken_data_recorder.Base.{ℤ, pos, String, Option, none, some}

-- `date::parse` of a text by a format: the microseconds, or none where the stream fails; a stream
-- that fails leaves the time point as it is. `date::format` of a time, in the zone "GMT".
pub record Date : Type 0 where
  pub parse : String → String → Option ℤ
  pub format : String → ℤ → String

-- The format of both.
abbrev iso_8601 : String
iso_8601 = "%FT%TZ"

-- `m_micros`, as the default constructor leaves it, and what a time point holds at first.
abbrev pub epoch : ℤ
epoch = pos 0

-- The state of the stream is not looked at.
unfoldable pub from_iso_8601 : Date → String → ℤ
from_iso_8601 date buffer = elim (date.parse iso_8601 buffer) [
  | none ↦ epoch
  | some micros ↦ micros
]

unfoldable pub to_iso_8601 : Date → ℤ → String
to_iso_8601 date micros = date.format iso_8601 micros
