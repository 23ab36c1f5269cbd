-- ===== src/Recorder/Exit.antt =====
-- The end of `main`: the destructors of the sinks.
use kraken_data_recorder.Base.{◌≡◌, arith, All}
use kraken_data_recorder.BookSink
use kraken_data_recorder.BookSink.Rows as BookRows
use kraken_data_recorder.TradesSink
use kraken_data_recorder.TradesSink.Rows as TradeRows
use kraken_data_recorder.BookSink.Writes.{flush-flushed}
use kraken_data_recorder.TradesSink.Writes as TradeWrites
use kraken_data_recorder.Recorder.{Recorder}
use kraken_data_recorder.Recorder.Outcome.{taken}
use kraken_data_recorder.Recorder.Run.{IsConsistent}

-- Both write a batch, also if there is no row left. The other two sinks have no destructor.
unfoldable pub destroy : Recorder → Recorder
destroy r = record r {
  book_sink = BookSink.destroy r.book_sink;
  trades_sink = TradesSink.destroy r.trades_sink;
}

-- When `main` has returned from a consistent recorder, every row of a book or a trade that its sink
-- has taken is in a batch of its file, and the columns of every batch have as many entries as the
-- batch has rows.
pub destroy-written :
    (r : Recorder)
    → IsConsistent r
    → (BookRows.written (destroy r).book_sink.batches ≡ taken r.book_sink)
      × All (λ batch. BookRows.HasRows batch.0 batch.1) (destroy r).book_sink.batches
      × (TradeRows.rows_of (destroy r).trades_sink.batches ≡ TradeRows.taken r.trades_sink)
      × All (λ batch. TradeRows.HasRows batch.0 batch.1) (destroy r).trades_sink.batches
unfolding destroy BookSink.destroy TradesSink.destroy
destroy-written r h =
    rw
      (
        flush-flushed r.book_sink h.book_rows.0,
        TradeWrites.flush-flushed r.trades_sink h.trade_rows.0,
      )
      (
        omega arith,
        (h.book_rows.1.1, h.book_rows.1.2),
        omega arith,
        (h.trade_rows.1.0, h.trade_rows.1.1),
      )
