-- ===== src/TradesSink.antt =====
-- `trades_sink_t` of parquet/include/trade_sink.hpp and parquet/src/trade_sink.cpp, with Arrow's
-- builders as lists, as in BookSink.
pub mod Writes
pub mod Rows
pub mod Failing
pub mod Log
pub mod Schema
use kraken_data_recorder.Arrow.{Writer}
use kraken_data_recorder.Base.{
  ℕ, suc, ℤ, to_u64, List, [], ◌∷◌, ◌++◌, String, none, some, if◌then◌else◌, leb, Result, ok, err,
  no_refdata,
}
use kraken_data_recorder.Decimal
use kraken_data_recorder.Decimal.{Bytes}
use kraken_data_recorder.Messages.{Header, Trade, Trades}
use kraken_data_recorder.Refdata.{Refdata, pair_precision}

pub record Columns : Type 0 where
  pub recv_tm : List ℤ
  pub ord_type : List Bytes
  pub price : List Bytes
  pub qty : List Bytes
  pub side : List Bytes
  pub symbol : List String
  pub timestamp : List ℤ
  pub trade_id : List ℕ

abbrev pub c_sink_name : String
c_sink_name = "trades"

abbrev pub no_columns : Columns
no_columns = record {
  recv_tm = [];
  ord_type = [];
  price = [];
  qty = [];
  side = [];
  symbol = [];
  timestamp = [];
  trade_id = [];
}

-- `writer` is `m_writer`, and `writes` how often it has been called.
pub record TradesSink : Type 0 where
  pub num_rows : ℕ
  pub columns : Columns
  pub batches : List (ℕ × Columns)
  pub writer : Writer Columns
  pub writes : ℕ

abbrev pub new_sink : Writer Columns → TradesSink
new_sink writer = record {
  num_rows = 0;
  columns = no_columns;
  batches = [];
  writer = writer;
  writes = 0;
}

abbrev pub c_flush_threshold : ℕ
c_flush_threshold = 4096

-- `Finish` has emptied the builders before the batch is written, and only what follows the write
-- sets the number of rows back.
unfoldable pub flush : TradesSink → TradesSink × Result (Unit {0})
flush s = elim (s.writer s.writes (s.num_rows, s.columns)) [
  | err x ↦ (record s { columns = no_columns; writes = suc s.writes }, err x)
  | ok _ ↦ (
    record s {
      num_rows = 0;
      columns = no_columns;
      batches = (s.num_rows, s.columns) ∷ s.batches;
      writes = suc s.writes;
    },
    ok tt,
  )
]

-- The destructor: what `flush` throws is only logged.
unfoldable pub destroy : TradesSink → TradesSink
unfolding flush
destroy s = (flush s).0

unfoldable pub append : Header → Trade → ℕ → ℕ → Columns → Columns
append header trade price_precision qty_precision c = record {
  recv_tm = c.recv_tm ++ (header.recv_tm ∷ []);
  ord_type = c.ord_type ++ ((trade.ord_type ∷ []) ∷ []);
  price = c.price ++ (Decimal.str_to trade.price price_precision ∷ []);
  qty = c.qty ++ (Decimal.str_to trade.qty qty_precision ∷ []);
  side = c.side ++ ((trade.side ∷ []) ∷ []);
  symbol = c.symbol ++ (trade.symbol ∷ []);
  timestamp = c.timestamp ++ (trade.timestamp ∷ []);
  trade_id = c.trade_id ++ (to_u64 trade.trade_id ∷ []);
}

-- The loop of `accept`.
unfoldable pub append_trades :
    Header → List Trade → Refdata → TradesSink → TradesSink × Result (Unit {0})
unfolding append
append_trades header [] refdata s = (s, ok tt)
append_trades header (trade ∷ trades) refdata s = elim (pair_precision trade.symbol refdata) [
  | none ↦ (s, err (no_refdata trade.symbol))
  | some (pp, qp) ↦
      append_trades header trades refdata
        (record s { num_rows = suc s.num_rows; columns = append header trade pp qp s.columns })
]

-- What follows the loop.
unfoldable pub flush_full : TradesSink × Result (Unit {0}) → TradesSink × Result (Unit {0})
unfolding flush
flush_full (s, err x) = (s, err x)
flush_full (s, ok _) = if leb c_flush_threshold s.num_rows then flush s else (s, ok tt)

unfoldable pub accept : Trades → Refdata → TradesSink → TradesSink × Result (Unit {0})
unfolding append_trades flush_full
accept trades refdata s = flush_full (append_trades trades.header trades.trades refdata s)
