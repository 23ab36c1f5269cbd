-- ===== src/CheckBook/Main.antt =====
-- `process_pairs` and `main` of test/check_book.cpp. A file is what Arrow reads of it: the batches,
-- and the metadata of its schema.
use kraken_data_recorder.Base.{
  ℕ, zero, suc, ℤ, pos, negsuc, List, [], ◌∷◌, String, Option, none, some, not, if◌then◌else◌, ◌==◌,
  Result, ok, err, Error, out_of_bounds, external, ◌>>=◌,
}
use kraken_data_recorder.BookSink as Books
use kraken_data_recorder.CheckBook.{value_at, unless_thrown, process_book}
use kraken_data_recorder.Crc.{Crc}
use kraken_data_recorder.LevelBook
use kraken_data_recorder.LevelBook.{LevelBook, init}
use kraken_data_recorder.Messages.{Double, Pair}
use kraken_data_recorder.PairsSink.{Columns}
use kraken_data_recorder.UnorderedMap.{lookup}

-- What `Value(idx)` returns for an entry that is null.
pub record Nulls : Type 0 where
  pub double : Double
  pub int64 : ℤ

unfoldable pub or_null {ℓ} : {A : Type ℓ} → A → Option A → A
or_null null none = null
or_null null (some a) = a

unfoldable pub pair_at : Nulls → Columns → ℕ → Result Pair
unfolding value_at or_null
pair_at nulls c idx = do
  base ← value_at c.base idx
  cost_min ← value_at c.cost_min idx
  cost_precision ← value_at c.cost_precision idx
  has_index ← value_at c.has_index idx
  margin_initial ← value_at c.margin_initial idx
  marginable ← value_at c.marginable idx
  position_limit_long ← value_at c.position_limit_long idx
  position_limit_short ← value_at c.position_limit_short idx
  price_increment ← value_at c.price_increment idx
  price_precision ← value_at c.price_precision idx
  qty_increment ← value_at c.qty_increment idx
  qty_min ← value_at c.qty_min idx
  qty_precision ← value_at c.qty_precision idx
  quote ← value_at c.quote idx
  status ← value_at c.status idx
  symbol ← value_at c.symbol idx
  ok (record {
    base = base;
    cost_min = cost_min;
    cost_precision = cost_precision;
    has_index = has_index;
    margin_initial = some (or_null nulls.double margin_initial);
    marginable = marginable;
    position_limit_long = some (or_null nulls.int64 position_limit_long);
    position_limit_short = some (or_null nulls.int64 position_limit_short);
    price_increment = price_increment;
    price_precision = price_precision;
    qty_increment = qty_increment;
    qty_min = qty_min;
    qty_precision = qty_precision;
    quote = quote;
    status = status;
    symbol = symbol;
  })

unfoldable pub process_pair : Result Pair → LevelBook → LevelBook × Result (Unit {0})
process_pair (err thrown) b = (b, err thrown)
process_pair (ok pair) b = (LevelBook.accept_pair b pair, ok tt)

-- The loop over the rows of a batch, with so many of them left.
unfoldable pub process_pair_rows :
    Nulls → ℕ → ℕ → Columns → LevelBook → LevelBook × Result (Unit {0})
unfolding pair_at process_pair
process_pair_rows nulls zero idx c b = (b, ok tt)
process_pair_rows nulls (suc left) idx c b =
    unless_thrown (process_pair (pair_at nulls c idx) b) (process_pair_rows nulls left (suc idx) c)

-- `process_pairs`, for the batches that are read.
unfoldable pub process_pairs :
    Nulls → List (ℕ × Columns) → LevelBook → LevelBook × Result (Unit {0})
unfolding process_pair_rows
process_pairs nulls [] b = (b, ok tt)
process_pairs nulls ((num_rows, c) ∷ batches) b =
    unless_thrown (process_pair_rows nulls num_rows 0 c b) (process_pairs nulls batches)

-- The file of the books. There may be no schema, and a schema may have no metadata.
pub record BookFile : Type 0 where
  pub schema : Option (Option (List (String × String)))
  pub batches : List (ℕ × Books.Columns)

-- The three that `main` throws.
abbrev no_schema : Error
no_schema = external 1

abbrev no_metadata : Error
no_metadata = external 2

abbrev no_depth : Error
no_depth = external 3

-- `depth_of` is `atol`, and the conversions to `depth_t` and to `size_t`.
unfoldable pub depth_in : (String → ℕ) → BookFile → Result ℕ
depth_in depth_of file = elim file.schema [
  | none ↦ err no_schema
  | some metadata ↦ elim metadata [
    | none ↦ err no_metadata
    | some entries ↦ elim (lookup "book_depth" entries) [
      | none ↦ err no_depth
      | some text ↦ ok (depth_of text)
    ]
  ]
]

-- What `main` returns after the `try`. What is out of bounds C++ leaves undefined: it is no
-- exception, and `main` returns nothing.
unfoldable pub exit_code : Result (Unit {0}) → Result ℤ
exit_code (err thrown) = elim thrown [ out_of_bounds ↦ err out_of_bounds | _ ↦ ok (pos 1) ]
exit_code (ok _) = ok (pos 0)

module _ (crc : Crc) (nulls : Nulls) (depth_of : String → ℕ) where
  -- The body of the `try`, with what the constructors of the two readers return.
  unfoldable pub check : Result BookFile → Result (List (ℕ × Columns)) → Result (Unit {0})
  unfolding depth_in process_pairs process_book
  check book_reader pairs_reader = do
    books ← book_reader
    book_depth ← depth_in depth_of books
    pairs ← pairs_reader
    (unless_thrown (process_pairs nulls pairs (init book_depth)) (process_book crc books.batches)).1

  unfoldable pub main : ℕ → Result BookFile → Result (List (ℕ × Columns)) → Result ℤ
  unfolding check exit_code
  main argc book_reader pairs_reader =
      if not (argc == 3) then ok (negsuc 0) else exit_code (check book_reader pairs_reader)
