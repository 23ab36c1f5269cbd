-- ===== src/AssetsSink/Schema.antt =====
-- The columns of a batch of parquet/src/assets_sink.cpp, and its schema.
use kraken_data_recorder.Arrow.{
  finish, finish_optional, field, Field, Array, boolean, float64, int64, int8, utf8,
}
use kraken_data_recorder.Base.{true, false, List, [], ◌∷◌}
use kraken_data_recorder.AssetsSink.{Columns}

-- The vector of the finished columns, with the types of their builders.
unfoldable pub arrays : Columns → List Array
arrays c =
    finish int64 c.recv_tm
    ∷ finish boolean c.borrowable
    ∷ finish float64 c.collateral_value
    ∷ finish utf8 c.id
    ∷ finish_optional float64 c.margin_rate
    ∷ finish int64 c.precision
    ∷ finish int64 c.precision_display
    ∷ finish int8 c.status
    ∷ []

unfoldable pub schema : List Field
schema =
    field "recv_tm" int64 false
    ∷ field "borrowable" boolean false
    ∷ field "collateral_value" float64 false
    ∷ field "id" utf8 false
    ∷ field "margin_rate" float64 true
    ∷ field "precision" int64 false
    ∷ field "precision_display" int64 false
    ∷ field "status" int8 false
    ∷ []
