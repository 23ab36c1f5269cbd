-- ===== src/Recorder/Files.antt =====
-- The files of the book and trades sinks when `main` has returned.
use kraken_data_recorder.Base.{
  Ensures-unit, ℤ, Bool, true, false, if◌then◌else◌, List, [], Result, ◌≡◌, refl, sym,
}
use kraken_data_recorder.BookSink
use kraken_data_recorder.BookSink.Log as BookLog
use kraken_data_recorder.Config.{Config}
use kraken_data_recorder.Crc.{Crc}
use kraken_data_recorder.Decimal.{Bytes}
use kraken_data_recorder.Engine.{Environment, new_engine}
use kraken_data_recorder.Engine.Keeps.{Keeps}
use kraken_data_recorder.LevelBook
use kraken_data_recorder.Messages.{Book, Trades}
use kraken_data_recorder.Messages.FromJson.{Readers}
use kraken_data_recorder.Requests.{Json}
use kraken_data_recorder.RowLog.{IsFile}
use kraken_data_recorder.Session.{Write, new_session, start_processing}
use kraken_data_recorder.Simdjson.{Simdjson}
use kraken_data_recorder.TradesSink.Log as TradeLog
use kraken_data_recorder.Recorder.Instruments.{accept_instrument-sinks}
use kraken_data_recorder.Recorder.{
  Recorder, FileWriters, WritersWork, new_recorder, noop_accept, accept_book, accept_trades,
  sink_of,
}
use kraken_data_recorder.Recorder.Exit.{destroy}
use kraken_data_recorder.Recorder.Keeps.{run-IsKept}
use kraken_data_recorder.Recorder.Log.{Extends, after_recorded-sinks, run-Extends}
use kraken_data_recorder.Recorder.Loop.{Event, Ending, waiting, stopped, terminated, run, started}
use kraken_data_recorder.Recorder.Options.{
  Given, Outcome, helped, left, destroyed, config_of, env_of, main,
}

-- What is not captured is not recorded.
abbrev IsSparse : Bool → Bool → Recorder → Type 0
IsSparse books trades r =
    (books ≡ false → BookLog.Holds r.book_sink [])
    × (trades ≡ false → TradeLog.Holds r.trades_sink [])

module _ (crc : Crc) where
  book-IsSparse :
      (books trades : Bool) (response : Book) (r : Recorder)
      → IsSparse books trades r
      → IsSparse books trades ((if books then accept_book crc else noop_accept crc) response r).0
  unfolding accept_book
  book-IsSparse true trades response r h =
      let sinks =
        after_recorded-sinks r (BookSink.accept response r.refdata r.book_sink)
          (LevelBook.accept_book crc r.level_book response) in
      (λ off. cc, λ off. rw (sinks.1) (h.1 off))
  book-IsSparse false trades response r h = h

  trades-IsSparse :
      (books trades : Bool) (response : Trades) (r : Recorder)
      → IsSparse books trades r
      → IsSparse books trades ((if trades then accept_trades else noop_accept crc) response r).0
  unfolding accept_trades
  trades-IsSparse books true response r h = (h.0, λ off. cc)
  trades-IsSparse books false response r h = h

  env-Keeps :
      (env : Environment Recorder)
      → env.sink ≡ sink_of crc env.config
      → Keeps env (IsSparse env.config.capture_book env.config.capture_trades) (λ book. Unit {0})
  env-Keeps env made = record {
    instrument = λ response r h.
        let sinks = accept_instrument-sinks response r in rw (made, sinks.0, sinks.1) h;
    book = λ response r q h.
        rw made (book-IsSparse env.config.capture_book env.config.capture_trades response r h);
    trades = λ response r h.
        rw made (trades-IsSparse env.config.capture_book env.config.capture_trades response r h);
    parsed = λ doc. Ensures-unit (env.parser.book doc);
  }

-- The files of the two sinks are made of the rows of two logs, which have none of what is not
-- captured.
pub record Files (config : Config) (r : Recorder) : Type 0 where
  pub books : List BookLog.Row
  pub trades : List TradeLog.Row
  pub book_file : IsFile BookLog.columns_of r.book_sink.batches books
  pub trades_file : IsFile TradeLog.columns_of r.trades_sink.batches trades
  pub no_books : config.capture_book ≡ false → IsFile BookLog.columns_of r.book_sink.batches []
  pub no_trades :
      config.capture_trades ≡ false → IsFile TradeLog.columns_of r.trades_sink.batches []

destroy-Files :
    (config : Config) (r : Recorder)
    → Extends [] [] r
    → IsSparse config.capture_book config.capture_trades r
    → Files config (destroy r)
unfolding destroy
destroy-Files config r held sparse = record {
  books = held.more_books;
  trades = held.more_trades;
  book_file = BookLog.destroy-IsFile r.book_sink held.more_books held.books_held;
  trades_file = TradeLog.destroy-IsFile r.trades_sink held.more_trades held.trades_held;
  no_books = λ off. BookLog.destroy-IsFile r.book_sink [] (sparse.0 off);
  no_trades = λ off. TradeLog.destroy-IsFile r.trades_sink [] (sparse.1 off);
}

module _ (json : Simdjson) (readers : Readers json.Value) (pong : json.Value → Result (Unit {0}))
    (now_at : json.Value → ℤ) (crc : Crc) (serialize : Json → Bytes) (write : Write)
    (writers : FileWriters) where
  abbrev main_of : Given → List Event → Outcome
  main_of = main json readers pong now_at crc serialize write writers

  abbrev end_of : Given → List Event → Recorder × Ending
  end_of given events =
      let env = env_of json readers pong now_at crc serialize write given in
      let (p, ending) = run env events (started env (new_recorder writers env.config)) in
      (p.1.1.1, ending)

  end-Files :
      (given : Given) (events : List Event)
      → WritersWork writers
      → Files (config_of given) (destroy (end_of given events).0)
  end-Files given events work =
      let env = env_of json readers pong now_at crc serialize write given in
      let r = new_recorder writers env.config in
      let s = start_processing new_session in
      let books_held = BookLog.new_sink-Holds writers.books work.0 in
      let trades_held = TradeLog.new_sink-Holds writers.trades work.1 in
      destroy-Files (config_of given) (end_of given events).0
        (run-Extends crc env refl events false s new_engine r [] [] books_held trades_held)
        (run-IsKept env (IsSparse env.config.capture_book env.config.capture_trades)
          (λ book. Unit {0}) (env-Keeps crc env refl) events false (s, (new_engine, r))
          (tt, (λ off. books_held, λ off. trades_held))).1

  -- Whatever the options are and whatever happens, where the writers of the book and trade sinks fail
  -- at no batch: if the program has left its loop without an exception, the files of the book and
  -- trades sinks are made of batches of rows, in which every column has an entry for every row, and
  -- they have no rows of what is not captured.
  pub main-Files :
      (given : Given) (events : List Event) (r : Recorder)
      → WritersWork writers
      → main_of given events ≡ left r stopped
      → Files (config_of given) r
  unfolding main
  main-Files given events r work returned =
      returned_by given.help (end_of given events).0 (end_of given events).1 returned
        (end-Files given events work)
    where
      returned_by :
          (help : Bool) (r1 : Recorder) (ending : Ending)
          → (if help then helped else left (destroyed r1 ending) ending) ≡ left r stopped
          → Files (config_of given) (destroy r1)
          → Files (config_of given) r
      returned_by true r1 ending e h = cc
      returned_by false r1 stopped e h = let same : destroy r1 ≡ r = cc in rw (sym same) h
      returned_by false r1 waiting e h = cc
      returned_by false r1 (terminated x) e h = cc
