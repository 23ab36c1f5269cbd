-- ===== src/Recorder/Recorded.antt =====
-- The rows that the queue of the books leaves in the file.
use kraken_data_recorder.Base.{
  ℕ, ◌≤◌, ◌*◌, true, false, List, [], ◌∷◌, ◌++◌, append-nil, append_assoc, map, length, none, some,
  ok, if◌then◌else◌, ◌≡◌, inl, inr, refl, sym, ap, ◌∙◌, Option-cases, Result-cases,
}
use kraken_data_recorder.BookSink
use kraken_data_recorder.BookSink.{BookSink}
use kraken_data_recorder.BookSink.Log as BookLog
use kraken_data_recorder.BookSink.Log.{destroy-IsFile}
use kraken_data_recorder.Crc.{Crc}
use kraken_data_recorder.Engine.{Environment, Engine, c_process_batch_size}
use kraken_data_recorder.Engine.Queue.{feed, feed-cons, feed-thrown}
use kraken_data_recorder.LevelBook
use kraken_data_recorder.LevelBook.{LevelBook}
use kraken_data_recorder.Messages.{Book}
use kraken_data_recorder.Refdata.{Refdata, pair_precision}
use kraken_data_recorder.RowLog.{IsFile}
use kraken_data_recorder.Session.{Session, Operation, process_wait}
use kraken_data_recorder.Recorder.{Recorder, accept_book, noop_accept, sink_of}
use kraken_data_recorder.Recorder.Drain.{run-IsDrained}
use kraken_data_recorder.Recorder.Exit.{destroy}
use kraken_data_recorder.Recorder.Loop.{process_timer, take_off, run}
use kraken_data_recorder.Recorder.Log.{after_recorded-sinks}

-- The rows of books at the precisions of their symbols.
unfoldable pub rows_of : Refdata → List Book → List BookLog.Row
rows_of refdata [] = []
rows_of refdata (book ∷ books) =
    let rest = rows_of refdata books in
    elim (pair_precision book.symbol refdata) [
      | none ↦ rest
      | some precision ↦ BookLog.row_of precision book ∷ rest
    ]

renamed :
    {s s' : BookSink} {log log' : List BookLog.Row}
    → s ≡ s'
    → log ≡ log'
    → BookLog.Holds s log
    → BookLog.Holds s' log'
renamed e f h = rw (sym e, sym f) h

module _ (crc : Crc) (env : Environment Recorder) (made : env.sink ≡ sink_of crc env.config)
    (captures : env.config.capture_book ≡ true) where
  -- What the sink does with a book.
  pub accept_book-captured : env.sink.accept_book ≡ accept_book crc
  accept_book-captured =
      ap (λ sink. sink.accept_book) made
      ∙ ap (λ b. if b then accept_book crc else noop_accept crc) captures

  accept_book-row_of :
      (book : Book) (r : Recorder) (log : List BookLog.Row)
      → BookLog.Holds r.book_sink log
      → (accept_book crc book r).1 ≡ ok tt
      → BookLog.Holds (accept_book crc book r).0.book_sink (log ++ rows_of r.refdata (book ∷ []))
        × ((accept_book crc book r).0.refdata ≡ r.refdata)
  unfolding accept_book rows_of
  accept_book-row_of book r log held returned =
      let booked = LevelBook.accept_book crc r.level_book book in
      let sinks = after_recorded-sinks r (BookSink.accept book r.refdata r.book_sink) booked in
      elim (BookLog.accept-Holds book r.refdata r.book_sink log held) [
        | inl (unknown, thrown) ↦ cc
        | inr (precision, known, taken, longer) ↦ (rw (sinks.0, known, rows_of) longer, sinks.2)
      ]

  rows_of-cons :
      (refdata : Refdata) (book : Book) (books : List Book)
      → rows_of refdata (book ∷ books) ≡ rows_of refdata (book ∷ []) ++ rows_of refdata books
  unfolding rows_of
  rows_of-cons refdata book books = elim (Option-cases (pair_precision book.symbol refdata)) [
    | inl e ↦ rw (e, rows_of) refl
    | inr (precision, e) ↦ rw (e, rows_of) refl
  ]

  feed-rows_of :
      (books : List Book) (r : Recorder) (log : List BookLog.Row)
      → BookLog.Holds r.book_sink log
      → (feed env.sink books r).1 ≡ ok tt
      → BookLog.Holds (feed env.sink books r).0.book_sink (log ++ rows_of r.refdata books)
  unfolding feed rows_of
  feed-rows_of [] r log held fed = rw (append-nil log) held
  feed-rows_of (book ∷ books) r log held fed = elim (Result-cases (accept_book crc book r).1) [
    | inl (x, thrown) ↦
        let failed =
          feed-thrown env.sink book books r x
            (ap (λ f. (f book r).1) accept_book-captured ∙ thrown) in
        cc
    | inr (done, taken) ↦
        let one = accept_book-row_of book r log held taken in
        let r1 = (accept_book crc book r).0 in
        let more : feed env.sink (book ∷ books) r ≡ feed env.sink books r1 =
          feed-cons env.sink book books r r1
            (ap (λ f. f book r) accept_book-captured ∙ ap (λ result. (r1, result)) taken) in
        let rest =
          feed-rows_of books r1 (log ++ rows_of r.refdata (book ∷ [])) one.0
            (ap (λ f. f.1) (sym more) ∙ fed) in
        let one_row = rows_of r.refdata (book ∷ []) in
        let rows : (log ++ one_row) ++ rows_of r1.refdata books
            ≡ log ++ rows_of r.refdata (book ∷ books) =
          append_assoc log one_row (rows_of r1.refdata books)
          ∙ ap (λ d. log ++ (one_row ++ rows_of d books)) one.1
          ∙ ap (◌++◌ log) (sym (rows_of-cons r.refdata book books)) in
        renamed (ap (λ f. f.0.book_sink) (sym more)) rows rest
  ]

  -- While the program is running, waits for the process timer and captures books, as many waits as
  -- there are batches of 64 in the queue, and then the end of `main`, leave a file whose rows are
  -- those that the sink held and then one for each book of the queue, in order, its quotes printed
  -- at the precisions of its symbol, if no book of the queue makes the sink or the level book throw
  -- and the writer of the book sink fails at no batch.
  pub run-recorded :
      (times : List ℕ) (s : Session) (e : Engine) (r : Recorder) (log : List BookLog.Row)
      → s.keep_processing ≡ true
      → (pending : List Operation) × (take_off (process_wait false) s.pending ≡ some pending)
      → length e.book_responses ≤ c_process_batch_size * length times
      → (feed env.sink e.book_responses r).1 ≡ ok tt
      → BookLog.Holds r.book_sink log
      → IsFile BookLog.columns_of
          (destroy
            (run env
              (map (process_timer false) times)
              (false, (s, (e, r)))).0.1.1.1).book_sink.batches
          (log ++ rows_of r.refdata e.book_responses)
  unfolding destroy BookSink.destroy
  run-recorded times s e r log on waits enough fed held =
      let drained = run-IsDrained env times s e r on waits enough fed in
      let recorded = feed-rows_of e.book_responses r log held fed in
      let held_last = renamed (ap (λ r. r.book_sink) (sym drained.1)) refl recorded in
      destroy-IsFile _ _ held_last
