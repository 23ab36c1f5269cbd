-- ===== src/Recorder/Log.antt =====
-- The recorder as two logs: the rows of the books and the rows of the trades.
use kraken_data_recorder.Base.{
  Ensures-unit, All-unit, Bool, List, [], ◌∷◌, ◌++◌, append-nil, append_assoc, Result, ok, err, ◌≡◌,
  inl, inr, refl, sym, Bool-cases,
}
use kraken_data_recorder.BookSink
use kraken_data_recorder.BookSink.{BookSink}
use kraken_data_recorder.BookSink.Log as BookLog
use kraken_data_recorder.Crc.{Crc}
use kraken_data_recorder.Engine.{Environment, Engine}
use kraken_data_recorder.Engine.Keeps.{Keeps}
use kraken_data_recorder.LevelBook
use kraken_data_recorder.LevelBook.{LevelBook}
use kraken_data_recorder.Messages.{Book, Trades}
use kraken_data_recorder.Refdata.{Refdata}
use kraken_data_recorder.Session.{Session}
use kraken_data_recorder.TradesSink.Log as TradeLog
use kraken_data_recorder.Recorder.Instruments.{accept_instrument-sinks}
use kraken_data_recorder.Recorder.{Recorder, accept_book, accept_trades, after_recorded, sink_of}
use kraken_data_recorder.Recorder.Keeps.{run-IsKept}
use kraken_data_recorder.Recorder.Loop.{Event, run}

-- The sinks hold these logs, each with more rows at its end.
pub record Extends (books : List BookLog.Row) (trades : List TradeLog.Row) (r : Recorder)
    : Type 0 where
  pub more_books : List BookLog.Row
  pub more_trades : List TradeLog.Row
  pub books_held : BookLog.Holds r.book_sink (books ++ more_books)
  pub trades_held : TradeLog.Holds r.trades_sink (trades ++ more_trades)

pub after_recorded-sinks :
    (r : Recorder) (recorded : BookSink × Result (Unit {0}))
    (booked : LevelBook × Result (Unit {0}))
    → ((after_recorded r recorded booked).0.book_sink ≡ recorded.0)
      × ((after_recorded r recorded booked).0.trades_sink ≡ r.trades_sink)
      × ((after_recorded r recorded booked).0.refdata ≡ r.refdata)
after_recorded-sinks r (s, err x) booked = (refl, refl, refl)
after_recorded-sinks r (s, ok _) booked = (refl, refl, refl)

module _ (books : List BookLog.Row) (trades : List TradeLog.Row) where
  accept_trades-Extends :
      (response : Trades) (r : Recorder)
      → Extends books trades r
      → Extends books trades (accept_trades response r).0
  unfolding accept_trades
  accept_trades-Extends response r h =
      let rows = (TradeLog.rows_of response.header r.refdata response.trades).0 in
      let held =
        (TradeLog.accept-rows_of response r.refdata r.trades_sink (trades ++ h.more_trades)
          h.trades_held).0 in
      record {
        more_books = h.more_books;
        more_trades = h.more_trades ++ rows;
        books_held = h.books_held;
        trades_held = rw (sym (append_assoc trades h.more_trades rows)) held;
      }

  -- The book sink alone.
  abbrev MoreBooks : BookSink → Type 0
  MoreBooks s = (more : List BookLog.Row) × BookLog.Holds s (books ++ more)

  sink_accept-MoreBooks :
      (response : Book) (refdata : Refdata) (s : BookSink)
      → MoreBooks s
      → MoreBooks (BookSink.accept response refdata s).0
  sink_accept-MoreBooks response refdata s (more, held) =
      elim (BookLog.accept-Holds response refdata s (books ++ more) held) [
        | inl (unknown, same) ↦ rw same (more, held)
        | inr (precision, known, returned, longer) ↦
            let row = BookLog.row_of precision response in
            (more ++ (row ∷ []), rw (sym (append_assoc books more (row ∷ []))) longer)
      ]

  accept_book-Extends :
      (crc : Crc) (response : Book) (r : Recorder)
      → Extends books trades r
      → Extends books trades (accept_book crc response r).0
  unfolding accept_book
  accept_book-Extends crc response r h =
      let sinks =
        after_recorded-sinks r (BookSink.accept response r.refdata r.book_sink)
          (LevelBook.accept_book crc r.level_book response) in
      let (more, held) =
        sink_accept-MoreBooks response r.refdata r.book_sink (h.more_books, h.books_held) in
      record {
        more_books = more;
        more_trades = h.more_trades;
        books_held = rw (sinks.0) held;
        trades_held = rw (sinks.1) (h.trades_held);
      }

module _ (crc : Crc) (env : Environment Recorder) (made : env.sink ≡ sink_of crc env.config) where
  env-Keeps :
      (books : List BookLog.Row) (trades : List TradeLog.Row)
      → Keeps env (Extends books trades) (λ book. Unit {0})
  env-Keeps books trades = record {
    instrument = λ response r h.
        let sinks = accept_instrument-sinks response r in
        rw made record {
          more_books = h.more_books;
          more_trades = h.more_trades;
          books_held = rw (sinks.0) (h.books_held);
          trades_held = rw (sinks.1) (h.trades_held);
        };
    book = λ response r q h. elim (Bool-cases env.config.capture_book) [
      | inl on ↦ rw (made, on) (accept_book-Extends books trades crc response r h)
      | inr off ↦ rw (made, off) h
    ];
    trades = λ response r h. elim (Bool-cases env.config.capture_trades) [
      | inl on ↦ rw (made, on) (accept_trades-Extends books trades response r h)
      | inr off ↦ rw (made, off) h
    ];
    parsed = λ doc. Ensures-unit (env.parser.book doc);
  }

  -- What is recorded is only added to: if the sinks hold two logs of rows, over writers that fail at
  -- no batch, then in every state that the program reaches from there they hold the same logs with
  -- some rows more at their ends, whatever happens else, also where a handler throws.
  pub run-Extends :
      (events : List Event) (down : Bool) (s : Session) (e : Engine) (r : Recorder)
      (books : List BookLog.Row) (trades : List TradeLog.Row)
      → BookLog.Holds r.book_sink books
      → TradeLog.Holds r.trades_sink trades
      → Extends books trades (run env events (down, (s, (e, r)))).0.1.1.1
  run-Extends events down s e r books trades b t =
      (run-IsKept env (Extends books trades) (λ book. Unit {0}) (env-Keeps books trades) events down
        (s, (e, r)) (All-unit e.book_responses, unchanged)).1
    where
      unchanged : Extends books trades r
      unchanged = record {
        more_books = [];
        more_trades = [];
        books_held = rw (append-nil books) b;
        trades_held = rw (append-nil trades) t;
      }
