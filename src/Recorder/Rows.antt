-- ===== src/Recorder/Rows.antt =====
-- The books that arrive and the rows of the file.
use kraken_data_recorder.Base.{
  ℕ, ℤ, Bool, true, false, List, [], ◌∷◌, ◌++◌, Result, ok, if◌then◌else◌, ◌≡◌, inl, inr, refl, sym,
  ap, ◌∙◌,
}
use kraken_data_recorder.BookSink
use kraken_data_recorder.BookSink.Log as BookLog
use kraken_data_recorder.Crc.{Crc}
use kraken_data_recorder.Decimal.{Bytes}
use kraken_data_recorder.Engine.{Environment, new_engine}
use kraken_data_recorder.Engine.Fifo.{Tracks, IsQueued}
use kraken_data_recorder.LevelBook
use kraken_data_recorder.Messages.{Book, Trades}
use kraken_data_recorder.Messages.FromJson.{Readers}
use kraken_data_recorder.Requests.{Json}
use kraken_data_recorder.RowLog.{IsFile}
use kraken_data_recorder.Session.{Write, new_session, start_processing}
use kraken_data_recorder.Simdjson.{Simdjson}
use kraken_data_recorder.Recorder.Instruments.{accept_instrument-sinks}
use kraken_data_recorder.Recorder.{
  Recorder, FileWriters, WritersWork, new_recorder, noop_accept, accept_book, accept_trades,
  sink_of,
}
use kraken_data_recorder.Recorder.Exit.{destroy}
use kraken_data_recorder.Recorder.Fifo.{run-IsSettled, IsSettled}
use kraken_data_recorder.Recorder.Log.{after_recorded-sinks}
use kraken_data_recorder.Recorder.Loop.{
  Event, Ending, Program, waiting, stopped, terminated, run, started,
}
use kraken_data_recorder.Recorder.Options.{
  Given, Outcome, helped, left, destroyed, config_of, env_of, main,
}
use kraken_data_recorder.Recorder.Received.{received}
use kraken_data_recorder.Recorder.Recorded.{accept_book-captured}

-- The rows are those of the books, one for each, in order, at some precisions.
abbrev pub AreRows : List Book → List BookLog.Row → Type 0
AreRows [] [] = Unit
AreRows [] (row ∷ rows) = ⊥
AreRows (book ∷ books) [] = ⊥
AreRows (book ∷ books) (row ∷ rows) =
    ((precision : ℕ × ℕ) × (row ≡ BookLog.row_of precision book)) × AreRows books rows

AreRows-append :
    (books : List Book) (rows : List BookLog.Row) (book : Book) (precision : ℕ × ℕ)
    → AreRows books rows
    → AreRows (books ++ (book ∷ [])) (rows ++ (BookLog.row_of precision book ∷ []))
AreRows-append [] [] book precision h = ((precision, refl), tt)
AreRows-append [] (row ∷ rows) book precision h = elim h [ ]
AreRows-append (other ∷ books) [] book precision h = elim h [ ]
AreRows-append (other ∷ books) (row ∷ rows) book precision h =
    (h.0, AreRows-append books rows book precision h.1)

-- The book sink holds the rows of these books, and no other.
abbrev pub IsRecorded : List Book → Recorder → Type 0
IsRecorded books r = (rows : List BookLog.Row) × BookLog.Holds r.book_sink rows × AreRows books rows

module _ (crc : Crc) where
  accept_book-IsRecorded :
      (books : List Book) (book : Book) (r : Recorder)
      → (accept_book crc book r).1 ≡ ok tt
      → IsRecorded books r
      → IsRecorded (books ++ (book ∷ [])) (accept_book crc book r).0
  unfolding accept_book
  accept_book-IsRecorded books book r returned (rows, held, are) =
      let booked = LevelBook.accept_book crc r.level_book book in
      let sinks = after_recorded-sinks r (BookSink.accept book r.refdata r.book_sink) booked in
      elim (BookLog.accept-Holds book r.refdata r.book_sink rows held) [
        | inl (unknown, thrown) ↦ cc
        | inr (precision, known, taken, longer) ↦ (
          rows ++ (BookLog.row_of precision book ∷ []),
          rw (sinks.0) longer,
          AreRows-append books rows book precision are,
        )
      ]

  trades-IsRecorded :
      (captured : Bool) (books : List Book) (response : Trades) (r : Recorder)
      → IsRecorded books r
      → IsRecorded books ((if captured then accept_trades else noop_accept crc) response r).0
  unfolding accept_trades
  trades-IsRecorded true books response r h = h
  trades-IsRecorded false books response r h = h

  pub env-Tracks :
      (env : Environment Recorder)
      → env.sink ≡ sink_of crc env.config
      → env.config.capture_book ≡ true
      → Tracks env IsRecorded
  env-Tracks env made captures =
      let accepts = accept_book-captured crc env made captures in
      record {
        instrument = λ books response r h.
            let sinks = accept_instrument-sinks response r in rw (made, sinks.0) h;
        trades = λ books response r h.
            rw made (trades-IsRecorded env.config.capture_trades books response r h);
        book = λ books response r returned h. rw accepts (
            accept_book-IsRecorded books response r
              (ap (λ f. (f response r).1) (sym accepts) ∙ returned) h);
      }

-- What becomes of books, the last of which are queued: the others are the rows of the file, one for
-- each, in order.
pub record Delivered (books queued : List Book) (r : Recorder) : Type 0 where
  pub recorded : List Book
  pub rows : List BookLog.Row
  pub split : books ≡ recorded ++ queued
  pub file : IsFile BookLog.columns_of r.book_sink.batches rows
  pub are : AreRows recorded rows

destroy-Delivered :
    (books queue : List Book) (env : Environment Recorder) (tracks : Tracks env IsRecorded)
    (r : Recorder)
    → IsQueued env IsRecorded tracks books queue r
    → Delivered books queue (destroy r)
unfolding destroy
destroy-Delivered books queue env tracks r h =
    let (rows, held, are) = h.tracked in
    record {
      recorded = h.taken;
      rows = rows;
      split = h.split;
      file = BookLog.destroy-IsFile r.book_sink rows held;
      are = are;
    }

module _ (json : Simdjson) (readers : Readers json.Value) (pong : json.Value → Result (Unit {0}))
    (now_at : json.Value → ℤ) (crc : Crc) (serialize : Json → Bytes) (write : Write)
    (writers : FileWriters) where
  abbrev main_of : Given → List Event → Outcome
  main_of = main json readers pong now_at crc serialize write writers

  -- The books that arrive at the program.
  abbrev pub books_received : Given → List Event → List Book
  books_received given events =
      let env = env_of json readers pong now_at crc serialize write given in
      received env events (started env (new_recorder writers env.config))

  -- The queue of the engine at the end of the loop.
  abbrev pub queue_left : Given → List Event → List Book
  queue_left given events =
      let env = env_of json readers pong now_at crc serialize write given in
      (run env events (started env (new_recorder writers env.config))).0.1.1.0.book_responses

  -- If the program captures books, the writers of the book and trade sinks fail at no batch, and it
  -- has left its loop without an exception: the books that have arrived, each message of the channel
  -- for books that could be parsed, are those of the rows of the file, one for each, in the order of
  -- their arrival, and then those that are in the queue of the engine at the end of the loop; the
  -- file has no other row.
  pub main-Delivered :
      (given : Given) (events : List Event) (r : Recorder)
      → WritersWork writers
      → (config_of given).capture_book ≡ true
      → main_of given events ≡ left r stopped
      → Delivered (books_received given events) (queue_left given events) r
  unfolding main
  main-Delivered given events r work captures returned =
      returned_by given.help (run env events (started env (new_recorder writers env.config)))
        returned settled
    where
      env : Environment Recorder
      env = env_of json readers pong now_at crc serialize write given

      tracks : Tracks env IsRecorded
      tracks = env-Tracks crc env refl captures

      at_start : IsQueued env IsRecorded tracks [] [] (new_recorder writers env.config)
      at_start = record {
        taken = [];
        tracked = ([], BookLog.new_sink-Holds writers.books work.0, tt);
        split = refl;
      }

      settled :
          IsSettled env IsRecorded tracks
            (books_received given events)
            (run env events (started env (new_recorder writers env.config)))
      settled =
          run-IsSettled env IsRecorded tracks [] events false (start_processing new_session)
            new_engine (new_recorder writers env.config) at_start

      returned_by :
          (help : Bool) (p : Program env × Ending)
          → (if help then helped else left (destroyed p.0.1.1.1 p.1) p.1) ≡ left r stopped
          → IsSettled env IsRecorded tracks (books_received given events) p
          → Delivered (books_received given events) p.0.1.1.0.book_responses r
      returned_by true p e h = cc
      returned_by false ((down, (s, (e1, r1))), stopped) e h =
          let same : destroy r1 ≡ r = cc in rw (sym same) (destroy-Delivered _ _ env tracks r1 h)
      returned_by false ((down, (s, (e1, r1))), waiting) e h = cc
      returned_by false ((down, (s, (e1, r1))), terminated x) e h = cc
