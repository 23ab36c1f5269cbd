-- ===== src/PairsSink/Schema.antt =====
-- The columns of a batch of parquet/src/pairs_sink.cpp, and its schema.
use kraken_data_recorder.Arrow.{
  finish, finish_optional, field, Field, Array, boolean, float64, int64, int8, utf8,
}
use kraken_data_recorder.Base.{true, false, List, [], ◌∷◌}
use kraken_data_recorder.PairsSink.{Columns}

-- The vector of the finished columns, with the types of their builders.
unfoldable pub arrays : Columns → List Array
arrays c =
    finish int64 c.recv_tm
    ∷ finish utf8 c.base
    ∷ finish float64 c.cost_min
    ∷ finish int64 c.cost_precision
    ∷ finish boolean c.has_index
    ∷ finish_optional float64 c.margin_initial
    ∷ finish boolean c.marginable
    ∷ finish_optional int64 c.position_limit_long
    ∷ finish_optional int64 c.position_limit_short
    ∷ finish float64 c.price_increment
    ∷ finish int64 c.price_precision
    ∷ finish float64 c.qty_increment
    ∷ finish float64 c.qty_min
    ∷ finish int64 c.qty_precision
    ∷ finish utf8 c.quote
    ∷ finish int8 c.status
    ∷ finish utf8 c.symbol
    ∷ []

unfoldable pub schema : List Field
schema =
    field "recv_tm" int64 false
    ∷ field "base" utf8 false
    ∷ field "cost_min" float64 false
    ∷ field "cost_precision" int64 false
    ∷ field "has_index" boolean false
    ∷ field "margin_initial" float64 true
    ∷ field "marginable" boolean false
    ∷ field "position_limit_long" int64 true
    ∷ field "position_limit_short" int64 true
    ∷ field "price_increment" float64 false
    ∷ field "price_precision" int64 false
    ∷ field "qty_increment" float64 false
    ∷ field "qty_min" float64 false
    ∷ field "qty_precision" int64 false
    ∷ field "quote" utf8 false
    ∷ field "status" int8 false
    ∷ field "symbol" utf8 false
    ∷ []
