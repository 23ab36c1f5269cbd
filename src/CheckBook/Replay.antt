-- ===== src/CheckBook/Replay.antt =====
-- `process_book` of test/check_book.cpp on the file that the book sink leaves.
use kraken_data_recorder.Base.{
  ℕ, suc, List, [], ◌∷◌, ◌++◌, append_assoc, map, length, length-append, arith, Result, ok, err,
  ◌>>=◌, ◌≡◌, refl, sym, ap, ◌∙◌,
}
use kraken_data_recorder.BookSink
use kraken_data_recorder.BookSink.{BookSink, Columns}
use kraken_data_recorder.BookSink.Log.{Row, columns_of, Holds, destroy-IsFile}
use kraken_data_recorder.CheckBook.{
  value_at, extract, response_at, process_response, unless_thrown, process_rows, process_book,
}
use kraken_data_recorder.Crc.{Crc}
use kraken_data_recorder.LevelBook.{LevelBook}
use kraken_data_recorder.Messages.{Book}
use kraken_data_recorder.RowLog.{rows_in, batches_of}

-- A file in the order of the writes.
abbrev pub in_order : {Batch : Type 0} → List Batch → List Batch
in_order [] = []
in_order (batch ∷ earlier) = in_order earlier ++ (batch ∷ [])

-- The book that a row is read as.
unfoldable pub response_of : Row → Result Book
response_of row = do
  bids ← extract row.bids
  asks ← extract row.asks
  ok (record {
    header = record { recv_tm = row.recv_tm; channel = "book"; kind = row.kind };
    asks = asks;
    bids = bids;
    crc32 = row.crc32;
    symbol = row.symbol;
    timestamp = row.timestamp;
  })

pub value_at-append :
    {Row A : Type 0} (f : Row → A) (before : List Row) (row : Row) (after : List Row)
    → value_at (map f (before ++ (row ∷ after))) (length before) ≡ ok (f row)
unfolding value_at
value_at-append f [] row after = refl
value_at-append f (first ∷ before) row after = value_at-append f before row after

response_at-response_of :
    (before : List Row) (row : Row) (after : List Row)
    → response_at (columns_of (before ++ (row ∷ after))) (length before) ≡ response_of row
unfolding response_at response_of
response_at-response_of before row after =
    rw
      (
        value_at-append (λ row. row.recv_tm) before row after,
        value_at-append (λ row. row.kind) before row after,
        value_at-append (λ row. row.bids) before row after,
        value_at-append (λ row. row.asks) before row after,
        value_at-append (λ row. row.crc32) before row after,
        value_at-append (λ row. row.symbol) before row after,
        value_at-append (λ row. row.timestamp) before row after,
      )
      refl

pub unless_thrown-same :
    (step : LevelBook × Result (Unit {0})) (f g : LevelBook → LevelBook × Result (Unit {0}))
    → ((b : LevelBook) → f b ≡ g b)
    → unless_thrown step f ≡ unless_thrown step g
unless_thrown-same (b, err thrown) f g same = refl
unless_thrown-same (b, ok _) f g same = same b

pub unless_thrown_assoc :
    (step : LevelBook × Result (Unit {0})) (f g : LevelBook → LevelBook × Result (Unit {0}))
    → unless_thrown (unless_thrown step f) g ≡ unless_thrown step (λ b. unless_thrown (f b) g)
unless_thrown_assoc (b, err thrown) f g = refl
unless_thrown_assoc (b, ok _) f g = refl

pub unless_thrown_ok :
    (step : LevelBook × Result (Unit {0})) → unless_thrown step (λ b. (b, ok tt)) ≡ step
unless_thrown_ok (b, err thrown) = refl
unless_thrown_ok (b, ok _) = refl

module _ (crc : Crc) where
  -- The rows of a file, each read as a book and given to the level book, one after the other.
  unfoldable pub replay : List Row → LevelBook → LevelBook × Result (Unit {0})
  replay [] b = (b, ok tt)
  replay (row ∷ rows) b = unless_thrown (process_response crc (response_of row) b) (replay rows)

  replay-append :
      (rows later : List Row) (b : LevelBook)
      → replay (rows ++ later) b ≡ unless_thrown (replay rows b) (replay later)
  unfolding replay
  replay-append [] later b = refl
  replay-append (row ∷ rows) later b =
      unless_thrown-same (process_response crc (response_of row) b) (replay (rows ++ later))
        (λ b'. unless_thrown (replay rows b') (replay later)) (replay-append rows later)
      ∙ sym (
          unless_thrown_assoc (process_response crc (response_of row) b) (replay rows)
            (replay later))

  process_rows-replay :
      (before rows : List Row) (b : LevelBook)
      → process_rows crc (length rows) (length before) (columns_of (before ++ rows)) b
        ≡ replay rows b
  unfolding process_rows replay
  process_rows-replay before [] b = refl
  process_rows-replay before (row ∷ rows) b =
      let whole : before ++ (row ∷ rows) ≡ (before ++ (row ∷ [])) ++ rows =
        sym (append_assoc before (row ∷ []) rows) in
      let next : suc (length before) ≡ length (before ++ (row ∷ [])) =
        omega (arith, length-append before (row ∷ [])) in
      rw (response_at-response_of before row rows) (
        unless_thrown-same (process_response crc (response_of row) b)
          (process_rows crc (length rows) (suc (length before))
            (columns_of (before ++ (row ∷ rows))))
          (replay rows)
          (λ b'. rw (whole, next) (process_rows-replay (before ++ (row ∷ [])) rows b')))

  process_book-append :
      (batches later : List (ℕ × Columns)) (b : LevelBook)
      → process_book crc (batches ++ later) b
        ≡ unless_thrown (process_book crc batches b) (process_book crc later)
  unfolding process_book
  process_book-append [] later b = refl
  process_book-append ((n, c) ∷ batches) later b =
      unless_thrown-same (process_rows crc n 0 c b) (process_book crc (batches ++ later))
        (λ b'. unless_thrown (process_book crc batches b') (process_book crc later))
        (process_book-append batches later)
      ∙ sym (
          unless_thrown_assoc (process_rows crc n 0 c b) (process_book crc batches)
            (process_book crc later))

  process_batches :
      (file : List (List Row)) (b : LevelBook)
      → process_book crc (in_order (batches_of columns_of file)) b
        ≡ replay (rows_in columns_of file) b
  unfolding process_book replay
  process_batches [] b = refl
  process_batches (rows ∷ earlier) b =
      let last : List (ℕ × Columns) = (length rows, columns_of rows) ∷ [] in
      process_book-append (in_order (batches_of columns_of earlier)) last b
      ∙ ap (λ step. unless_thrown step (process_book crc last)) (process_batches earlier b)
      ∙ unless_thrown-same (replay (rows_in columns_of earlier) b) (process_book crc last)
          (replay rows)
          (λ b'.
            unless_thrown_ok (process_rows crc (length rows) 0 (columns_of rows) b')
            ∙ process_rows-replay [] rows b')
      ∙ sym (replay-append (rows_in columns_of earlier) rows b)

  -- Where the book sink holds a log of rows, over a writer that fails at no batch, `process_book` of
  -- check_book.cpp on the file that its destructor leaves, batch by batch in the order of the writes,
  -- is the same as reading each row of the log as a book and giving it to the level book, one after
  -- the other: with what it makes of the level book, and with the first exception.
  pub process_book-replay :
      (s : BookSink) (log : List Row) (b : LevelBook)
      → Holds s log
      → process_book crc (in_order (BookSink.destroy s).batches) b ≡ replay log b
  process_book-replay s log b h =
      let (file, written, all) = destroy-IsFile s log h in
      ap (λ batches. process_book crc (in_order batches) b) written
      ∙ process_batches file b
      ∙ ap (λ rows. replay rows b) (sym all)
