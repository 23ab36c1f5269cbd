-- ===== src/PairsSink.antt =====
-- `pairs_sink_t` of parquet/include/pairs_sink.hpp and parquet/src/pairs_sink.cpp, with Arrow's
-- builders as lists, as in BookSink. The optional entries are null where they are none.
pub mod Batches
pub mod Schema
use kraken_data_recorder.Arrow.{Writer}
use kraken_data_recorder.Base.{
  suc, Result, ok, err, ℕ, ℤ, Bool, List, [], ◌∷◌, ◌++◌, String, Option, length,
}
use kraken_data_recorder.Messages.{Double, Header, Pair}

pub record Columns : Type 0 where
  pub recv_tm : List ℤ
  pub base : List String
  pub cost_min : List Double
  pub cost_precision : List ℤ
  pub has_index : List Bool
  pub margin_initial : List (Option Double)
  pub marginable : List Bool
  pub position_limit_long : List (Option ℤ)
  pub position_limit_short : List (Option ℤ)
  pub price_increment : List Double
  pub price_precision : List ℕ
  pub qty_increment : List Double
  pub qty_min : List Double
  pub qty_precision : List ℕ
  pub quote : List String
  pub status : List ℤ
  pub symbol : List String

abbrev pub c_sink_name : String
c_sink_name = "pairs"

abbrev pub no_columns : Columns
no_columns = record {
  recv_tm = [];
  base = [];
  cost_min = [];
  cost_precision = [];
  has_index = [];
  margin_initial = [];
  marginable = [];
  position_limit_long = [];
  position_limit_short = [];
  price_increment = [];
  price_precision = [];
  qty_increment = [];
  qty_min = [];
  qty_precision = [];
  quote = [];
  status = [];
  symbol = [];
}

-- `columns` is what the builders hold between two calls, `batches` the file, the latest first, and
-- `writes` how often the writer has been called.
pub record PairsSink : Type 0 where
  pub columns : Columns
  pub batches : List (ℕ × Columns)
  pub writer : Writer Columns
  pub writes : ℕ

abbrev pub new_sink : Writer Columns → PairsSink
new_sink writer = record { columns = no_columns; batches = []; writer = writer; writes = 0 }

unfoldable pub append : Header → Pair → Columns → Columns
append header pair c = record {
  recv_tm = c.recv_tm ++ (header.recv_tm ∷ []);
  base = c.base ++ (pair.base ∷ []);
  cost_min = c.cost_min ++ (pair.cost_min ∷ []);
  cost_precision = c.cost_precision ++ (pair.cost_precision ∷ []);
  has_index = c.has_index ++ (pair.has_index ∷ []);
  margin_initial = c.margin_initial ++ (pair.margin_initial ∷ []);
  marginable = c.marginable ++ (pair.marginable ∷ []);
  position_limit_long = c.position_limit_long ++ (pair.position_limit_long ∷ []);
  position_limit_short = c.position_limit_short ++ (pair.position_limit_short ∷ []);
  price_increment = c.price_increment ++ (pair.price_increment ∷ []);
  price_precision = c.price_precision ++ (pair.price_precision ∷ []);
  qty_increment = c.qty_increment ++ (pair.qty_increment ∷ []);
  qty_min = c.qty_min ++ (pair.qty_min ∷ []);
  qty_precision = c.qty_precision ++ (pair.qty_precision ∷ []);
  quote = c.quote ++ (pair.quote ∷ []);
  status = c.status ++ (pair.status ∷ []);
  symbol = c.symbol ++ (pair.symbol ∷ []);
}

-- The loop of `accept`.
unfoldable pub append_pairs : Header → List Pair → Columns → Columns
unfolding append
append_pairs header [] c = c
append_pairs header (pair ∷ pairs) c = append_pairs header pairs (append header pair c)

-- `accept`: the loop, and the batch of what the builders hold, which leaves them empty, also where
-- the writer fails.
unfoldable pub accept : Header → List Pair → PairsSink → PairsSink × Result (Unit {0})
unfolding append_pairs
accept header pairs s =
    let columns = append_pairs header pairs s.columns in
    elim (s.writer s.writes (length pairs, columns)) [
      | err x ↦ (record s { columns = no_columns; writes = suc s.writes }, err x)
      | ok _ ↦ (
        record s {
          columns = no_columns;
          batches = (length pairs, columns) ∷ s.batches;
          writes = suc s.writes;
        },
        ok tt,
      )
    ]
