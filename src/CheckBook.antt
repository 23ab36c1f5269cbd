-- ===== src/CheckBook.antt =====
-- test/check_book.cpp: the program that reads a file of books again and gives them to a level book.
-- A batch that Arrow reads is what BookSink writes: the number of its rows, and its columns. Main has
-- `process_pairs` and `main`.
pub mod Replay
pub mod Main
pub mod Verdict
pub mod Reread
use kraken_data_recorder.Base.{
  ℕ, zero, suc, List, [], ◌∷◌, String, none, some, Result, ok, err, Error, out_of_bounds, external,
  ◌>>=◌,
}
use kraken_data_recorder.BookSink.{Entry, Columns}
use kraken_data_recorder.Constants.{c_channel_book}
use kraken_data_recorder.Crc.{Crc}
use kraken_data_recorder.Decimal
use kraken_data_recorder.Decimal.{Bytes}
use kraken_data_recorder.LevelBook
use kraken_data_recorder.LevelBook.{LevelBook, sides_of}
use kraken_data_recorder.Messages.{Quote, Book}
use kraken_data_recorder.Sides.{Side, Sides}

-- `Value(idx)` of an array; behind its end C++ leaves it undefined.
unfoldable pub value_at {ℓ} : {A : Type ℓ} → List A → ℕ → Result A
value_at [] idx = err out_of_bounds
value_at (a ∷ array) zero = ok a
value_at (a ∷ array) (suc idx) = value_at array idx

-- The loop of `extract`: the vector holds copies of what was read.
unfoldable pub extract_quotes : List (Bytes × Bytes) → Result (List Quote)
extract_quotes [] = ok []
extract_quotes ((price_view, qty_view) ∷ slice) = do
  price ← Decimal.from_str price_view
  qty ← Decimal.from_str qty_view
  quotes ← extract_quotes slice
  ok ((Decimal.copy price, Decimal.copy qty) ∷ quotes)

-- The slice of an entry that is null is empty.
unfoldable pub extract : Entry → Result (List Quote)
unfolding extract_quotes
extract none = ok []
extract (some slice) = extract_quotes slice

unfoldable pub response_at : Columns → ℕ → Result Book
unfolding value_at extract
response_at c idx = do
  recv_tm ← value_at c.recv_tm idx
  kind ← value_at c.kind idx
  bids ← value_at c.bids idx >>= extract
  asks ← value_at c.asks idx >>= extract
  crc32 ← value_at c.crc32 idx
  symbol ← value_at c.symbol idx
  timestamp ← value_at c.timestamp idx
  ok (record {
    header = record { recv_tm = recv_tm; channel = "book"; kind = kind };
    asks = asks;
    bids = bids;
    crc32 = crc32;
    symbol = symbol;
    timestamp = timestamp;
  })

-- What `dump_sides` does to the iterator of a side: it goes one further for each line, whether it
-- is at the end or not, which C++ leaves undefined there.
unfoldable pub dump_side : ℕ → Side → Result (Unit {0})
dump_side zero it = ok tt
dump_side (suc depth) [] = err out_of_bounds
dump_side (suc depth) (level ∷ it) = dump_side depth it

abbrev pub max_depth : ℕ
max_depth = 10

unfoldable pub dump_sides : Sides → Result (Unit {0})
unfolding dump_side
dump_sides sides = dump_side max_depth sides.bids >>= λ dumped. dump_side max_depth sides.asks

-- What is left of an exception that is thrown again as a `std::exception`.
abbrev pub sliced : Error
sliced = external 0

-- The `catch` of the body of the loop.
unfoldable pub rethrown : LevelBook → String → Result (Unit {0})
unfolding dump_sides
rethrown b symbol = sides_of b symbol >>= dump_sides >>= λ dumped. err sliced

-- What comes after a step of a loop, unless it has thrown.
abbrev pub unless_thrown :
    LevelBook × Result (Unit {0})
    → (LevelBook → LevelBook × Result (Unit {0}))
    → LevelBook × Result (Unit {0})
unless_thrown (b, err thrown) rest = (b, err thrown)
unless_thrown (b, ok _) rest = rest b

module _ (crc : Crc) where
  -- `level_book.accept(response)` with its `catch`.
  unfoldable pub accept_response :
      Book → LevelBook × Result (Unit {0}) → LevelBook × Result (Unit {0})
  unfolding rethrown
  accept_response response (b, ok _) = (b, ok tt)
  accept_response response (b, err thrown) = (b, rethrown b response.symbol)

  unfoldable pub process_response : Result Book → LevelBook → LevelBook × Result (Unit {0})
  unfolding accept_response
  process_response (err thrown) b = (b, err thrown)
  process_response (ok response) b = accept_response response (LevelBook.accept_book crc b response)

  -- The loop over the rows of a batch, with so many of them left.
  unfoldable pub process_rows : ℕ → ℕ → Columns → LevelBook → LevelBook × Result (Unit {0})
  unfolding response_at process_response
  process_rows zero idx c b = (b, ok tt)
  process_rows (suc left) idx c b =
      unless_thrown (process_response (response_at c idx) b) (process_rows left (suc idx) c)

  -- `process_book`, for the batches that are read.
  unfoldable pub process_book : List (ℕ × Columns) → LevelBook → LevelBook × Result (Unit {0})
  unfolding process_rows
  process_book [] b = (b, ok tt)
  process_book ((num_rows, c) ∷ batches) b =
      unless_thrown (process_rows num_rows 0 c b) (process_book batches)
