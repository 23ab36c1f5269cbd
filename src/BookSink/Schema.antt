-- ===== src/BookSink/Schema.antt =====
-- The columns of a batch of parquet/src/book_sink.cpp, and its schema, without its metadata: the
-- depth.
use kraken_data_recorder.Arrow.{
  finish, finish_optional, any_null, field, Field, Array, DataType, Fits, int64, quotes, uint64,
  utf8,
}
use kraken_data_recorder.Base.{
  ℕ, true, false, List, [], ◌∷◌, ◌++◌, Option, none, some, ◌≡◌, ◌⊎◌, inl, inr, refl,
}
use kraken_data_recorder.BookSink.{Columns, entry, append}
use kraken_data_recorder.Messages.{Book}

-- The vector of the finished columns, with the types of their builders.
unfoldable pub arrays : Columns → List Array
arrays c =
    finish int64 c.recv_tm
    ∷ finish utf8 c.kind
    ∷ finish_optional quotes c.bids
    ∷ finish_optional quotes c.asks
    ∷ finish uint64 c.crc32
    ∷ finish utf8 c.symbol
    ∷ finish int64 c.timestamp
    ∷ []

unfoldable pub schema : List Field
schema =
    field "recv_tm" int64 false
    ∷ field "type" utf8 false
    ∷ field "bids" quotes false
    ∷ field "asks" quotes false
    ∷ field "checksum" uint64 false
    ∷ field "symbol" utf8 false
    ∷ field "timestamp" int64 false
    ∷ []

null-append :
    {A : Type 0} (type : DataType) (entries : List (Option A))
    → any_null (finish_optional type (entries ++ (none ∷ []))).valid ≡ true
unfolding any_null finish_optional
null-append type [] = refl
null-append type (none ∷ entries) = refl
null-append type (some a ∷ entries) = null-append type entries

-- A book with no bids or no asks, as most updates are, puts a null into a column whose field is not
-- nullable, and the batch with it does not fit the schema.
pub append-nulls :
    (pp qp : ℕ) (book : Book) (c : Columns)
    → (book.bids ≡ []) ⊎ (book.asks ≡ [])
    → ¬ Fits schema (arrays (append pp qp book c))
unfolding append entry arrays schema
append-nulls pp qp book c (inl empty) fits =
    let null : any_null (finish_optional quotes (c.bids ++ (entry pp qp book.bids ∷ []))).valid
        ≡ true =
      rw (empty, entry) (null-append quotes c.bids) in
    let strict = fits.2.2.1 refl in cc
append-nulls pp qp book c (inr empty) fits =
    let null : any_null (finish_optional quotes (c.asks ++ (entry pp qp book.asks ∷ []))).valid
        ≡ true =
      rw (empty, entry) (null-append quotes c.asks) in
    let strict = fits.2.2.2.1 refl in cc
