-- ===== src/Recorder.antt =====
-- `main` of kdr_record/kdr_record.cpp: how the sinks, the reference data, the level book and the
-- engine are put together, and the loop that runs them. The options of the command line are the
-- configuration; the log is left out.
pub mod Instruments
pub mod Loop
pub mod Parse
pub mod Options
pub mod Agree
pub mod Outcome
pub mod Keeps
pub mod Run
pub mod Pending
pub mod Phases
pub mod Numbered
pub mod Drain
pub mod Faults
pub mod Stop
pub mod Exit
pub mod Log
pub mod Recorded
pub mod Verified
pub mod Files
pub mod Received
pub mod Fifo
pub mod Rows
use kraken_data_recorder.Base.{
  ℕ, to_u64, Bool, true, false, not, ◌&&◌, List, [], ◌∷◌, if◌then◌else◌, ◌==◌, Result, ok, err,
  Error,
}
use kraken_data_recorder.Arrow.{Writer, NeverFails}
use kraken_data_recorder.AssetsSink
use kraken_data_recorder.AssetsSink.{AssetsSink}
use kraken_data_recorder.BookSink
use kraken_data_recorder.BookSink.{BookSink}
use kraken_data_recorder.Config.{Config}
use kraken_data_recorder.Crc.{Crc}
use kraken_data_recorder.Engine.{
  Sink, Environment, World, callbacks, new_engine, on_metrics_timer, on_ping_timer,
  on_process_timer, on_first_process_timer, stop_processing,
}
use kraken_data_recorder.LevelBook
use kraken_data_recorder.LevelBook.{LevelBook}
use kraken_data_recorder.Messages.{Pair, Instrument, Book, Trades}
use kraken_data_recorder.PairsSink
use kraken_data_recorder.PairsSink.{PairsSink}
use kraken_data_recorder.Refdata
use kraken_data_recorder.Refdata.{Refdata, empty_refdata}
use kraken_data_recorder.Session.{
  Session, Operation, new_session, start_processing, async_resolve, async_connect,
  async_ssl_handshake, async_handshake, async_read, metrics_wait, ping_wait, process_wait,
}
use kraken_data_recorder.Session.Chain.{Completion, operation_of, handle}
use kraken_data_recorder.TradesSink
use kraken_data_recorder.TradesSink.{TradesSink}

-- The objects that the lambdas of `main` refer to.
pub record Recorder : Type 0 where
  pub assets_sink : AssetsSink
  pub pairs_sink : PairsSink
  pub book_sink : BookSink
  pub trades_sink : TradesSink
  pub level_book : LevelBook
  pub refdata : Refdata

-- Arrow's writers of the four files.
pub record FileWriters : Type 0 where
  pub assets : Writer AssetsSink.Columns
  pub pairs : Writer PairsSink.Columns
  pub books : Writer BookSink.Columns
  pub trades : Writer TradesSink.Columns

-- Those of the books and of the trades fail at no batch.
abbrev pub WritersWork : FileWriters → Type 0
WritersWork writers = NeverFails writers.books × NeverFails writers.trades

-- The depth is compared with sizes, so it is one as `size_t` (src/sides.cpp).
abbrev pub new_recorder : FileWriters → Config → Recorder
new_recorder writers config = record {
  assets_sink = AssetsSink.new_sink writers.assets;
  pairs_sink = PairsSink.new_sink writers.pairs;
  book_sink = BookSink.new_sink writers.books;
  trades_sink = TradesSink.new_sink writers.trades;
  level_book = LevelBook.init (to_u64 config.book_depth);
  refdata = empty_refdata;
}

unfoldable pub accept_pairs : List Pair → LevelBook → LevelBook
accept_pairs [] b = b
accept_pairs (pair ∷ pairs) b = accept_pairs pairs (LevelBook.accept_pair b pair)

unfoldable pub accept_instrument : Instrument → Recorder → Recorder × Result (Unit {0})
unfolding accept_pairs
accept_instrument response r =
    let assets = AssetsSink.accept response.header response.assets r.assets_sink in
    let pairs = PairsSink.accept response.header response.pairs r.pairs_sink in
    elim assets.1 [
      | err x ↦ (record r { assets_sink = assets.0 }, err x)
      | ok _ ↦ elim pairs.1 [
        | err x ↦ (record r { assets_sink = assets.0; pairs_sink = pairs.0 }, err x)
        | ok _ ↦ (
          record r {
            assets_sink = assets.0;
            pairs_sink = pairs.0;
            refdata = Refdata.accept response r.refdata;
            level_book = accept_pairs response.pairs r.level_book;
          },
          ok tt,
        )
      ]
    ]

unfoldable pub accept_trades : Trades → Recorder → Recorder × Result (Unit {0})
accept_trades response r =
    let (trades_sink, result) = TradesSink.accept response r.refdata r.trades_sink in
    (record r { trades_sink = trades_sink }, result)

-- What `accept_book` does when the sink has returned or thrown: the level book sees the message only
-- if it has not thrown.
abbrev pub after_recorded :
    Recorder
    → BookSink × Result (Unit {0})
    → LevelBook × Result (Unit {0})
    → Recorder × Result (Unit {0})
after_recorded r (book_sink, err x) booked = (record r { book_sink = book_sink }, err x)
after_recorded r (book_sink, ok _) (level_book, result) =
    (record r { book_sink = book_sink; level_book = level_book }, result)

module _ (crc : Crc) where
  unfoldable pub accept_book : Book → Recorder → Recorder × Result (Unit {0})
  accept_book response r =
      after_recorded r (BookSink.accept response r.refdata r.book_sink)
        (LevelBook.accept_book crc r.level_book response)

  abbrev pub noop_accept : {M : Type 0} → M → Recorder → Recorder × Result (Unit {0})
  noop_accept response r = (r, ok tt)

  abbrev pub sink_of : Config → Sink Recorder
  sink_of config = record {
    accept_instrument = accept_instrument;
    accept_book = if config.capture_book then accept_book else noop_accept;
    accept_trades = if config.capture_trades then accept_trades else noop_accept;
  }
