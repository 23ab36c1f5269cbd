-- ===== src/CheckTests.antt =====
-- Instances of the theorems on the program that reads a file of books again.
use kraken_data_recorder.Base.{
  List, String, ℕ, ◌≤◌, pos, [], ◌∷◌, none, some, ok, ◌≡◌, inr, refl, arith,
}
use kraken_data_recorder.BookSink
use kraken_data_recorder.BookSink.{BookSink, entry, rendered}
use kraken_data_recorder.BookSink.Log.{Row, row_of, columns_of}
use kraken_data_recorder.CheckBook.Main.{Nulls, BookFile}
use kraken_data_recorder.UnorderedMap
use kraken_data_recorder.CheckBook.Replay.{in_order, response_of}
use kraken_data_recorder.CheckBook.Reread.{response_of-row_of}
use kraken_data_recorder.Decimal.{Decimal, own}
use kraken_data_recorder.Decimal.Digits.{zeros}
use kraken_data_recorder.Decimal.Layout.{pointed}
use kraken_data_recorder.Decimal.Reread.{IsPrintable}
use kraken_data_recorder.Messages.{Book}
use kraken_data_recorder.TestData.{good_book, disk}

abbrev row : Row
row = record {
  recv_tm = pos 0;
  kind = "update";
  bids = none;
  asks = some ((b'1' ∷ b'.' ∷ b'5' ∷ [], b'2' ∷ b'.' ∷ b'0' ∷ []) ∷ []);
  crc32 = 48;
  symbol = "BTC/USD";
  timestamp = pos 0;
}

-- A row in the file, and one in the builders.
abbrev sink : BookSink
sink = record {
  num_rows = 1;
  columns = columns_of (row ∷ []);
  batches = (1, columns_of (row ∷ [])) ∷ [];
  writer = disk.books;
  writes = 1;
}

abbrev nulls : Nulls
nulls = record { double = 0; int64 = pos 0 }

abbrev depth_of : String → ℕ
depth_of = λ text. 1000

abbrev metadata : List (String × String)
metadata = ("book_depth", "1000") ∷ []

abbrev file : BookFile
file = record {
  schema = some (some metadata);
  batches = in_order ((1, columns_of (row ∷ [])) ∷ sink.batches);
}

-- What the constructor makes of "1.5".
abbrev one_and_a_half : Decimal
one_and_a_half = record { chars = b'1' ∷ b'.' ∷ b'5' ∷ zeros 45; view = own 3 }

one_and_a_half-IsPrintable : (p : ℕ) → p ≤ 19 → IsPrintable p one_and_a_half
one_and_a_half-IsPrintable p few = record {
  int = b'1' ∷ [];
  frac = b'5' ∷ [];
  layout = pointed 45 (refl, tt) (refl, tt) refl refl;
  canonical = inr (refl, refl, tt);
  small = omega arith;
  fits = omega arith;
}

abbrev quoted : Book
quoted = record good_book { asks = (one_and_a_half, one_and_a_half) ∷ [] }

response_of-row_of_example :
    (book' : Book) × (response_of (row_of (1, 8) quoted) ≡ ok book')
    × (row_of (1, 8) book' ≡ row_of (1, 8) quoted)
response_of-row_of_example = response_of-row_of 1 8 quoted (omega arith) (omega arith) (
  tt,
  ((one_and_a_half-IsPrintable 1 (omega arith), one_and_a_half-IsPrintable 8 (omega arith)), tt),
)
