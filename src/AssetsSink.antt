-- ===== src/AssetsSink.antt =====
-- `assets_sink_t` of parquet/include/assets_sink.hpp and parquet/src/assets_sink.cpp, with Arrow's
-- builders as lists, as in BookSink. The optional entries are null where they are none.
pub mod Batches
pub mod Schema
use kraken_data_recorder.Arrow.{Writer}
use kraken_data_recorder.Base.{
  suc, Result, ok, err, ℕ, ℤ, Bool, List, [], ◌∷◌, ◌++◌, String, Option, length,
}
use kraken_data_recorder.Messages.{Double, Header, Asset}

pub record Columns : Type 0 where
  pub recv_tm : List ℤ
  pub borrowable : List Bool
  pub collateral_value : List Double
  pub id : List String
  pub margin_rate : List (Option Double)
  pub precision : List ℤ
  pub precision_display : List ℤ
  pub status : List ℤ

abbrev pub c_sink_name : String
c_sink_name = "assets"

abbrev pub no_columns : Columns
no_columns = record {
  recv_tm = [];
  borrowable = [];
  collateral_value = [];
  id = [];
  margin_rate = [];
  precision = [];
  precision_display = [];
  status = [];
}

-- `columns` is what the builders hold between two calls, `batches` the file, the latest first, and
-- `writes` how often the writer has been called.
pub record AssetsSink : Type 0 where
  pub columns : Columns
  pub batches : List (ℕ × Columns)
  pub writer : Writer Columns
  pub writes : ℕ

abbrev pub new_sink : Writer Columns → AssetsSink
new_sink writer = record { columns = no_columns; batches = []; writer = writer; writes = 0 }

unfoldable pub append : Header → Asset → Columns → Columns
append header asset c = record {
  recv_tm = c.recv_tm ++ (header.recv_tm ∷ []);
  borrowable = c.borrowable ++ (asset.borrowable ∷ []);
  collateral_value = c.collateral_value ++ (asset.collateral_value ∷ []);
  id = c.id ++ (asset.id ∷ []);
  margin_rate = c.margin_rate ++ (asset.margin_rate ∷ []);
  precision = c.precision ++ (asset.precision ∷ []);
  precision_display = c.precision_display ++ (asset.precision_display ∷ []);
  status = c.status ++ (asset.status ∷ []);
}

-- The loop of `accept`.
unfoldable pub append_assets : Header → List Asset → Columns → Columns
unfolding append
append_assets header [] c = c
append_assets header (asset ∷ assets) c = append_assets header assets (append header asset c)

-- `accept`: the loop, and the batch of what the builders hold, which leaves them empty, also where
-- the writer fails.
unfoldable pub accept : Header → List Asset → AssetsSink → AssetsSink × Result (Unit {0})
unfolding append_assets
accept header assets s =
    let columns = append_assets header assets s.columns in
    elim (s.writer s.writes (length assets, columns)) [
      | err x ↦ (record s { columns = no_columns; writes = suc s.writes }, err x)
      | ok _ ↦ (
        record s {
          columns = no_columns;
          batches = (length assets, columns) ∷ s.batches;
          writes = suc s.writes;
        },
        ok tt,
      )
    ]
