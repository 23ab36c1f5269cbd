-- ===== src/PairsSink/Batches.antt =====
-- The batch that `accept` of parquet/src/pairs_sink.cpp writes.
use kraken_data_recorder.Arrow.{NeverFails}
use kraken_data_recorder.Base.{
  List, [], ◌∷◌, ◌++◌, map, append-nil, append_assoc, length, ◌≡◌, refl, inl, inr, Result-cases,
}
use kraken_data_recorder.Messages.{Header, Pair}
use kraken_data_recorder.PairsSink.{Columns, PairsSink, no_columns, append, append_pairs, accept}

-- The columns of some pairs: row by row their members, with the time of the header.
abbrev pub columns_of : Header → List Pair → Columns
columns_of header pairs = record {
  recv_tm = map (λ (pair : Pair). header.recv_tm) pairs;
  base = map (λ (pair : Pair). pair.base) pairs;
  cost_min = map (λ (pair : Pair). pair.cost_min) pairs;
  cost_precision = map (λ (pair : Pair). pair.cost_precision) pairs;
  has_index = map (λ (pair : Pair). pair.has_index) pairs;
  margin_initial = map (λ (pair : Pair). pair.margin_initial) pairs;
  marginable = map (λ (pair : Pair). pair.marginable) pairs;
  position_limit_long = map (λ (pair : Pair). pair.position_limit_long) pairs;
  position_limit_short = map (λ (pair : Pair). pair.position_limit_short) pairs;
  price_increment = map (λ (pair : Pair). pair.price_increment) pairs;
  price_precision = map (λ (pair : Pair). pair.price_precision) pairs;
  qty_increment = map (λ (pair : Pair). pair.qty_increment) pairs;
  qty_min = map (λ (pair : Pair). pair.qty_min) pairs;
  qty_precision = map (λ (pair : Pair). pair.qty_precision) pairs;
  quote = map (λ (pair : Pair). pair.quote) pairs;
  status = map (λ (pair : Pair). pair.status) pairs;
  symbol = map (λ (pair : Pair). pair.symbol) pairs;
}

abbrev joined : Columns → Columns → Columns
joined c d = record {
  recv_tm = c.recv_tm ++ d.recv_tm;
  base = c.base ++ d.base;
  cost_min = c.cost_min ++ d.cost_min;
  cost_precision = c.cost_precision ++ d.cost_precision;
  has_index = c.has_index ++ d.has_index;
  margin_initial = c.margin_initial ++ d.margin_initial;
  marginable = c.marginable ++ d.marginable;
  position_limit_long = c.position_limit_long ++ d.position_limit_long;
  position_limit_short = c.position_limit_short ++ d.position_limit_short;
  price_increment = c.price_increment ++ d.price_increment;
  price_precision = c.price_precision ++ d.price_precision;
  qty_increment = c.qty_increment ++ d.qty_increment;
  qty_min = c.qty_min ++ d.qty_min;
  qty_precision = c.qty_precision ++ d.qty_precision;
  quote = c.quote ++ d.quote;
  status = c.status ++ d.status;
  symbol = c.symbol ++ d.symbol;
}

append_pairs-columns_of :
    (header : Header) (pairs : List Pair) (c : Columns)
    → append_pairs header pairs c ≡ joined c (columns_of header pairs)
unfolding append_pairs append
append_pairs-columns_of header [] c = simp append-nil
append_pairs-columns_of header (pair ∷ pairs) c =
    simp (append_pairs-columns_of header pairs (append header pair c), append_assoc)

-- `accept` leaves the builders empty, whether the writer fails or not.
pub columns-accept :
    (header : Header) (pairs : List Pair) (s : PairsSink)
    → (accept header pairs s).0.columns ≡ no_columns
unfolding accept
columns-accept header pairs s =
    elim (Result-cases (s.writer s.writes (length pairs, append_pairs header pairs s.columns))) [
      | inl (x, e) ↦ rw (accept, e) refl
      | inr (done, e) ↦ rw (accept, e) refl
    ]

-- `accept` with empty builders, over a writer that fails at no batch, writes one batch, which says
-- that it has as many rows as the message has pairs and whose columns hold their members in order,
-- and keeps the writer.
pub accept-columns_of :
    (header : Header) (pairs : List Pair) (s : PairsSink)
    → NeverFails s.writer
    → s.columns ≡ no_columns
    → ((accept header pairs s).0.batches ≡ (length pairs, columns_of header pairs) ∷ s.batches)
      × NeverFails (accept header pairs s).0.writer
unfolding accept
accept-columns_of header pairs s works empty =
    let written = works s.writes (length pairs, append_pairs header pairs s.columns) in
    rw (accept, written) (rw (append_pairs-columns_of header pairs s.columns, empty) refl, works)
