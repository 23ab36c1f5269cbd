-- ===== src/BookSink/Log.antt =====
-- `book_sink_t` as a log of rows.
use kraken_data_recorder.Arrow.{Writer, NeverFails}
use kraken_data_recorder.Base.{
  ℕ, suc, ℤ, List, [], ◌∷◌, ◌++◌, String, none, some, leb, map, map-append, ok, err, no_refdata,
  ◌≡◌, ◌⊎◌, inl, inr, refl, Bool-cases, Option-cases,
}
use kraken_data_recorder.Messages.{Book}
use kraken_data_recorder.Refdata.{Refdata, pair_precision}
use kraken_data_recorder.RowLog
use kraken_data_recorder.RowLog.{Holds-append, Holds-flush, Holds-IsFile}
use kraken_data_recorder.BookSink.Writes.{Works, flushed, flush-flushed, flush_full-flushed}
use kraken_data_recorder.BookSink.{
  Entry, Columns, BookSink, no_columns, new_sink, entry, append, destroy, flush_full, accept,
  c_flush_threshold,
}

pub record Row : Type 0 where
  pub recv_tm : ℤ
  pub kind : String
  pub bids : Entry
  pub asks : Entry
  pub crc32 : ℕ
  pub symbol : String
  pub timestamp : ℤ

-- The row of a book: its members, with the quotes printed at the precisions of its symbol.
abbrev pub row_of : ℕ × ℕ → Book → Row
row_of (pp, qp) book = record {
  recv_tm = book.header.recv_tm;
  kind = book.header.kind;
  bids = entry pp qp book.bids;
  asks = entry pp qp book.asks;
  crc32 = book.crc32;
  symbol = book.symbol;
  timestamp = book.timestamp;
}

abbrev pub columns_of : List Row → Columns
columns_of rows = record {
  recv_tm = map (λ row. row.recv_tm) rows;
  kind = map (λ row. row.kind) rows;
  bids = map (λ row. row.bids) rows;
  asks = map (λ row. row.asks) rows;
  crc32 = map (λ row. row.crc32) rows;
  symbol = map (λ row. row.symbol) rows;
  timestamp = map (λ row. row.timestamp) rows;
}

-- The sink holds a log, and its writer fails at no batch.
abbrev pub Holds : BookSink → List Row → Type 0
Holds s log = Works s × RowLog.Holds columns_of s.num_rows s.columns s.batches log

pub new_sink-Holds : (writer : Writer Columns) → NeverFails writer → Holds (new_sink writer) []
new_sink-Holds writer works = (
  works,
  record { file = []; unwritten = []; counted = refl; built = refl; written = refl; all = refl },
)

append-columns_of :
    (pp qp : ℕ) (book : Book) (rows : List Row)
    → append pp qp book (columns_of rows) ≡ columns_of (rows ++ (row_of (pp, qp) book ∷ []))
unfolding append
append-columns_of pp qp book rows = simp map-append

pub flushed-Holds : (s : BookSink) (log : List Row) → Holds s log → Holds (flushed s) log
flushed-Holds s log h = (h.0, Holds-flush columns_of no_columns refl h.1)

flush_full-Holds :
    (s : BookSink) (log : List Row)
    → Holds s log
    → Holds (flush_full s).0 log × ((flush_full s).1 ≡ ok tt)
flush_full-Holds s log h =
    rw (flush_full-flushed s h.0) (elim (Bool-cases (leb c_flush_threshold s.num_rows)) [
      | inl full ↦ rw full (flushed-Holds s log h, refl)
      | inr room ↦ rw room (h, refl)
    ])

-- `accept` of the book sink, over a writer that fails at no batch, is an append to a log: a book of
-- a symbol with reference data is one more row at the end of the log that the sink holds, its
-- members and its quotes printed at the precisions of the symbol; a book of any other symbol leaves
-- the sink as it is and throws.
pub accept-Holds :
    (book : Book) (refdata : Refdata) (s : BookSink) (log : List Row)
    → Holds s log
    → ((pair_precision book.symbol refdata ≡ none)
        × (accept book refdata s ≡ (s, err (no_refdata book.symbol))))
      ⊎ ((precision : ℕ × ℕ) × (pair_precision book.symbol refdata ≡ some precision)
          × ((accept book refdata s).1 ≡ ok tt)
          × Holds (accept book refdata s).0 (log ++ (row_of precision book ∷ [])))
unfolding accept
accept-Holds book refdata s log h = elim (Option-cases (pair_precision book.symbol refdata)) [
  | inl e ↦ inl (e, rw (e, accept) refl)
  | inr ((pp, qp), e) ↦
      let columns' = append pp qp book s.columns in
      let row = row_of (pp, qp) book in
      let longer =
        Holds-append columns_of columns' row
          (λ rows built. rw built (append-columns_of pp qp book rows)) h.1 in
      let accepted =
        flush_full-Holds (record s { num_rows = suc s.num_rows; columns = columns' })
          (log ++ (row ∷ [])) (h.0, longer) in
      inr ((pp, qp), e, rw (e, accept) (accepted.1), rw (e, accept) (accepted.0))
]

-- What the destructor of a sink that holds a log leaves is a file of its rows.
pub destroy-IsFile :
    (s : BookSink) (log : List Row) → Holds s log → RowLog.IsFile columns_of (destroy s).batches log
unfolding destroy
destroy-IsFile s log h = rw (destroy, flush-flushed s h.0) (Holds-IsFile columns_of no_columns h.1)
