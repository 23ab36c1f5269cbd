-- ===== src/AssetsSink/Batches.antt =====
-- The batch that `accept` of parquet/src/assets_sink.cpp writes.
use kraken_data_recorder.Arrow.{NeverFails}
use kraken_data_recorder.Base.{
  List, [], ◌∷◌, ◌++◌, map, append-nil, append_assoc, length, ◌≡◌, refl, inl, inr, Result-cases,
}
use kraken_data_recorder.Messages.{Header, Asset}
use kraken_data_recorder.AssetsSink.{Columns, AssetsSink, no_columns, append, append_assets, accept}

-- The columns of some assets: row by row their members, with the time of the header.
abbrev pub columns_of : Header → List Asset → Columns
columns_of header assets = record {
  recv_tm = map (λ (asset : Asset). header.recv_tm) assets;
  borrowable = map (λ (asset : Asset). asset.borrowable) assets;
  collateral_value = map (λ (asset : Asset). asset.collateral_value) assets;
  id = map (λ (asset : Asset). asset.id) assets;
  margin_rate = map (λ (asset : Asset). asset.margin_rate) assets;
  precision = map (λ (asset : Asset). asset.precision) assets;
  precision_display = map (λ (asset : Asset). asset.precision_display) assets;
  status = map (λ (asset : Asset). asset.status) assets;
}

abbrev joined : Columns → Columns → Columns
joined c d = record {
  recv_tm = c.recv_tm ++ d.recv_tm;
  borrowable = c.borrowable ++ d.borrowable;
  collateral_value = c.collateral_value ++ d.collateral_value;
  id = c.id ++ d.id;
  margin_rate = c.margin_rate ++ d.margin_rate;
  precision = c.precision ++ d.precision;
  precision_display = c.precision_display ++ d.precision_display;
  status = c.status ++ d.status;
}

append_assets-columns_of :
    (header : Header) (assets : List Asset) (c : Columns)
    → append_assets header assets c ≡ joined c (columns_of header assets)
unfolding append_assets append
append_assets-columns_of header [] c = simp append-nil
append_assets-columns_of header (asset ∷ assets) c =
    simp (append_assets-columns_of header assets (append header asset c), append_assoc)

-- `accept` leaves the builders empty, whether the writer fails or not.
pub columns-accept :
    (header : Header) (assets : List Asset) (s : AssetsSink)
    → (accept header assets s).0.columns ≡ no_columns
unfolding accept
columns-accept header assets s =
    elim (Result-cases (s.writer s.writes (length assets, append_assets header assets s.columns))) [
      | inl (x, e) ↦ rw (accept, e) refl
      | inr (done, e) ↦ rw (accept, e) refl
    ]

-- `accept` with empty builders, over a writer that fails at no batch, writes one batch, which says
-- that it has as many rows as the message has assets and whose columns hold their members in order,
-- and keeps the writer.
pub accept-columns_of :
    (header : Header) (assets : List Asset) (s : AssetsSink)
    → NeverFails s.writer
    → s.columns ≡ no_columns
    → ((accept header assets s).0.batches ≡ (length assets, columns_of header assets) ∷ s.batches)
      × NeverFails (accept header assets s).0.writer
unfolding accept
accept-columns_of header assets s works empty =
    let written = works s.writes (length assets, append_assets header assets s.columns) in
    rw (accept, written) (rw (append_assets-columns_of header assets s.columns, empty) refl, works)
