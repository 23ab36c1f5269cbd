-- ===== src/BookSink.antt =====
-- `book_sink_t` of parquet/include/book_sink.hpp and parquet/src/book_sink.cpp. An Arrow builder is
-- the list of what was appended to it since it was last finished, and its calls are taken to
-- succeed; the writer may fail. The file is the list of the batches that were written, the latest
-- first.
pub mod Writes
pub mod Rows
pub mod Log
pub mod Schema
use kraken_data_recorder.Arrow.{Writer}
use kraken_data_recorder.Base.{
  ℕ, suc, ℤ, Bool, not, List, [], ◌∷◌, ◌++◌, String, Option, none, some, if◌then◌else◌, leb, ◌==◌,
  length, map, Result, ok, err, no_refdata,
}
use kraken_data_recorder.Decimal
use kraken_data_recorder.Decimal.{Bytes}
use kraken_data_recorder.Messages.{Quote, Book}
use kraken_data_recorder.Refdata.{Refdata, pair_precision}

-- An entry of a list column: its quotes, or none where it is null.
abbrev pub Entry : Type 0
Entry = Option (List (Bytes × Bytes))

pub record Columns : Type 0 where
  pub recv_tm : List ℤ
  pub kind : List String
  pub bids : List Entry
  pub asks : List Entry
  pub crc32 : List ℕ
  pub symbol : List String
  pub timestamp : List ℤ

abbrev pub c_sink_name : String
c_sink_name = "book"

abbrev pub no_columns : Columns
no_columns = record {
  recv_tm = [];
  kind = [];
  bids = [];
  asks = [];
  crc32 = [];
  symbol = [];
  timestamp = [];
}

-- `writer` is `m_writer`, and `writes` how often it has been called.
pub record BookSink : Type 0 where
  pub num_rows : ℕ
  pub columns : Columns
  pub batches : List (ℕ × Columns)
  pub writer : Writer Columns
  pub writes : ℕ

abbrev pub new_sink : Writer Columns → BookSink
new_sink writer = record {
  num_rows = 0;
  columns = no_columns;
  batches = [];
  writer = writer;
  writes = 0;
}

abbrev pub c_flush_threshold : ℕ
c_flush_threshold = 4096

-- `Finish` has emptied the builders before the batch is written, and only what follows the write
-- sets the number of rows back.
unfoldable pub flush : BookSink → BookSink × Result (Unit {0})
flush s = elim (s.writer s.writes (s.num_rows, s.columns)) [
  | err x ↦ (record s { columns = no_columns; writes = suc s.writes }, err x)
  | ok _ ↦ (
    record s {
      num_rows = 0;
      columns = no_columns;
      batches = (s.num_rows, s.columns) ∷ s.batches;
      writes = suc s.writes;
    },
    ok tt,
  )
]

-- The destructor: what `flush` throws is only logged.
unfoldable pub destroy : BookSink → BookSink
unfolding flush
destroy s = (flush s).0

-- The loops over the quotes.
unfoldable pub rendered : ℕ → ℕ → List Quote → List (Bytes × Bytes)
rendered pp qp [] = []
rendered pp qp ((price, qty) ∷ quotes) =
    (Decimal.str_to price pp, Decimal.str_to qty qp) ∷ rendered pp qp quotes

-- `ListBuilder::Append` takes a `bool`, whether the entry is valid: the code gives it the size.
unfoldable pub entry : ℕ → ℕ → List Quote → Entry
unfolding rendered
entry pp qp quotes = if length quotes == 0 then none else some (rendered pp qp quotes)

unfoldable pub append : ℕ → ℕ → Book → Columns → Columns
unfolding entry
append pp qp book c = record {
  recv_tm = c.recv_tm ++ (book.header.recv_tm ∷ []);
  kind = c.kind ++ (book.header.kind ∷ []);
  bids = c.bids ++ (entry pp qp book.bids ∷ []);
  asks = c.asks ++ (entry pp qp book.asks ∷ []);
  crc32 = c.crc32 ++ (book.crc32 ∷ []);
  symbol = c.symbol ++ (book.symbol ∷ []);
  timestamp = c.timestamp ++ (book.timestamp ∷ []);
}

unfoldable pub flush_full : BookSink → BookSink × Result (Unit {0})
unfolding flush
flush_full s = if leb c_flush_threshold s.num_rows then flush s else (s, ok tt)

unfoldable pub accept : Book → Refdata → BookSink → BookSink × Result (Unit {0})
unfolding append flush_full
accept book refdata s = elim (pair_precision book.symbol refdata) [
  | none ↦ (s, err (no_refdata book.symbol))
  | some (pp, qp) ↦
      flush_full (record s { num_rows = suc s.num_rows; columns = append pp qp book s.columns })
]
