-- ===== src/CheckBook/Reread.antt =====
-- What check_book.cpp reads of the row of a book.
use kraken_data_recorder.Base.{
  ℕ, suc, ◌≤◌, false, arith, List, [], ◌∷◌, All, some, ◌==◌, length, ok, ◌≡◌, refl, ap, sym, ◌∙◌,
}
use kraken_data_recorder.BookSink.{rendered, entry}
use kraken_data_recorder.BookSink.Log.{row_of}
use kraken_data_recorder.CheckBook.{extract, extract_quotes}
use kraken_data_recorder.CheckBook.Replay.{response_of}
use kraken_data_recorder.Decimal
use kraken_data_recorder.Decimal.{Bytes}
use kraken_data_recorder.Decimal.Reread.{IsPrintable, from_str-of_str_to}
use kraken_data_recorder.Messages.{Quote, Book}

module _ (pp qp : ℕ) where
  abbrev pub IsPrintableQuote : Quote → Type 0
  IsPrintableQuote (price, qty) = IsPrintable pp price × IsPrintable qp qty

  -- Every price and quantity of the book prints as a number that the constructor can read again.
  abbrev pub IsPrintableBook : Book → Type 0
  IsPrintableBook book = All IsPrintableQuote book.bids × All IsPrintableQuote book.asks

  -- Quotes that print as others do.
  abbrev Alike : List Quote → List Quote → Type 0
  Alike quotes quotes' =
      (rendered pp qp quotes' ≡ rendered pp qp quotes) × (length quotes' ≡ length quotes)

  extract_quotes-rendered :
      (quotes : List Quote)
      → pp ≤ 19
      → qp ≤ 19
      → All IsPrintableQuote quotes
      → (quotes' : List Quote) × (extract_quotes (rendered pp qp quotes) ≡ ok quotes')
        × Alike quotes quotes'
  unfolding extract_quotes rendered
  extract_quotes-rendered [] fp fq h = ([], refl, (refl, refl))
  extract_quotes-rendered ((price, qty) ∷ quotes) fp fq h =
      let (price', read_price, same_price) = from_str-of_str_to pp price fp h.0.0 in
      let (qty', read_qty, same_qty) = from_str-of_str_to qp qty fq h.0.1 in
      let (quotes', read_quotes, (same_quotes, same_length)) =
        extract_quotes-rendered quotes fp fq h.1 in
      (
        (Decimal.copy price', Decimal.copy qty') ∷ quotes',
        rw (read_price, read_qty, read_quotes) refl,
        (rw (same_price, same_qty, same_quotes) refl, rw same_length refl),
      )

  entry-rendered :
      (quotes : List Quote) (n : ℕ)
      → length quotes ≡ suc n
      → entry pp qp quotes ≡ some (rendered pp qp quotes)
  unfolding entry
  entry-rendered quotes n e = let full : (suc n == 0) ≡ false = ground arith in rw (e, full) refl

  extract-entry :
      (quotes : List Quote)
      → pp ≤ 19
      → qp ≤ 19
      → All IsPrintableQuote quotes
      → (quotes' : List Quote) × (extract (entry pp qp quotes) ≡ ok quotes')
        × (entry pp qp quotes' ≡ entry pp qp quotes)
  unfolding extract entry
  extract-entry [] fp fq h = ([], refl, refl)
  extract-entry (quote ∷ quotes) fp fq h =
      let (quotes', read, (same, same_length)) = extract_quotes-rendered (quote ∷ quotes) fp fq h in
      let before = entry-rendered (quote ∷ quotes) (length quotes) refl in
      let after = entry-rendered quotes' (length quotes) same_length in
      (
        quotes',
        ap extract before ∙ read,
        after ∙ ap (λ (slice : List (Bytes × Bytes)). some slice) same ∙ sym before,
      )

  -- The row of a book whose prices and quantities print, at the precisions of its symbol, of at most
  -- 19, as numbers of at most 48 characters below 2 ^ 64, without leading zeros: check_book.cpp reads
  -- it as a book, and the row of that book is the same row.
  pub response_of-row_of :
      (book : Book)
      → pp ≤ 19
      → qp ≤ 19
      → IsPrintableBook book
      → (book' : Book) × (response_of (row_of (pp, qp) book) ≡ ok book')
        × (row_of (pp, qp) book' ≡ row_of (pp, qp) book)
  unfolding response_of
  response_of-row_of book fp fq h =
      let (bids, read_bids, same_bids) = extract-entry book.bids fp fq h.0 in
      let (asks, read_asks, same_asks) = extract-entry book.asks fp fq h.1 in
      (
        record {
          header = record book.header { channel = "book" };
          asks = asks;
          bids = bids;
          crc32 = book.crc32;
          symbol = book.symbol;
          timestamp = book.timestamp;
        },
        rw (read_bids, read_asks) refl,
        rw (same_bids, same_asks) refl,
      )
