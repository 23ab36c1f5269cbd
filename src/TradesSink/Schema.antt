-- ===== src/TradesSink/Schema.antt =====
-- The columns of a batch of parquet/src/trade_sink.cpp, and its schema.
use kraken_data_recorder.Arrow.{finish, field, Field, Array, int64, uint64, utf8}
use kraken_data_recorder.Base.{false, List, [], ◌∷◌}
use kraken_data_recorder.TradesSink.{Columns}

-- The vector of the finished columns, with the types of their builders.
unfoldable pub arrays : Columns → List Array
arrays c =
    finish int64 c.recv_tm
    ∷ finish utf8 c.ord_type
    ∷ finish utf8 c.price
    ∷ finish utf8 c.qty
    ∷ finish utf8 c.side
    ∷ finish utf8 c.symbol
    ∷ finish int64 c.timestamp
    ∷ finish uint64 c.trade_id
    ∷ []

unfoldable pub schema : List Field
schema =
    field "recv_tm" int64 false
    ∷ field "ord_type" utf8 false
    ∷ field "price" utf8 false
    ∷ field "qty" utf8 false
    ∷ field "side" utf8 false
    ∷ field "symbol" utf8 false
    ∷ field "timestamp" int64 false
    ∷ field "trade_id" uint64 false
    ∷ []
