-- ===== src/TradesSink/Writes.antt =====
-- `flush` of parquet/src/trade_sink.cpp over a writer that fails at no batch.
use kraken_data_recorder.Arrow.{NeverFails}
use kraken_data_recorder.Base.{suc, ◌∷◌, if◌then◌else◌, leb, ok, ◌≡◌, refl, inl, inr, Bool-cases}
use kraken_data_recorder.TradesSink.{TradesSink, no_columns, flush, flush_full, c_flush_threshold}

-- The writer of the sink fails at no batch.
abbrev pub Works : TradesSink → Type 0
Works s = NeverFails s.writer

-- What `flush` leaves when the batch is written.
abbrev pub flushed : TradesSink → TradesSink
flushed s = record s {
  num_rows = 0;
  columns = no_columns;
  batches = (s.num_rows, s.columns) ∷ s.batches;
  writes = suc s.writes;
}

pub flush-flushed : (s : TradesSink) → Works s → flush s ≡ (flushed s, ok tt)
unfolding flush
flush-flushed s works = rw (flush, works s.writes (s.num_rows, s.columns)) refl

pub flush_full-flushed :
    (s : TradesSink)
    → Works s
    → flush_full (s, ok tt) ≡ (if leb c_flush_threshold s.num_rows then flushed s else s, ok tt)
unfolding flush_full
flush_full-flushed s works = elim (Bool-cases (leb c_flush_threshold s.num_rows)) [
  | inl full ↦ rw full (flush-flushed s works)
  | inr room ↦ rw room refl
]
