-- ===== src/Sides/Twins.antt =====
-- Two books that print alike, given two messages that print alike, stay alike and give the same
-- verdict.
use kraken_data_recorder.Base.{ℕ, ◌≤◌, [], ◌++◌, take, ◌≡◌, refl, ap, sym, ◌∙◌}
use kraken_data_recorder.Crc.{Crc}
use kraken_data_recorder.Messages.{Book}
use kraken_data_recorder.OrderedMap.Alike as Maps
use kraken_data_recorder.Decimal.{Bytes}
use kraken_data_recorder.Decimal.Checksum.{feed}
use kraken_data_recorder.Sides.{
  Side, Sides, c_crc32_depth, accept_update, accept_snapshot, bid_less, ask_less,
}
use kraken_data_recorder.Sides.Alike.{
  QuotesAlike, apply_update-QuotesAlike, side_digits-QuotesAlike,
}
use kraken_data_recorder.Sides.Checksum.{IsStoredBook, side_digits, book_checksum, verdict}
use kraken_data_recorder.Sides.Printed.{PrintAlike, lt-PrintAlike, gt-PrintAlike}
use kraken_data_recorder.Sides.Stored.{
  IsStoredMessage, accept_update-verdict, accept_snapshot-verdict,
}

-- The same depth and precisions, and levels that print alike.
pub record SidesAlike (s s' : Sides) : Type 0 where
  pub depth : s.book_depth ≡ s'.book_depth
  pub price_precision : s.price_precision ≡ s'.price_precision
  pub qty_precision : s.qty_precision ≡ s'.qty_precision
  pub bids : QuotesAlike s.price_precision s.qty_precision s.bids s'.bids
  pub asks : QuotesAlike s.price_precision s.qty_precision s.asks s'.asks

-- The same type, symbol and checksum, and quotes that print alike.
pub record MessagesAlike (pp qp : ℕ) (book book' : Book) : Type 0 where
  pub kind : book.header.kind ≡ book'.header.kind
  pub symbol : book.symbol ≡ book'.symbol
  pub crc32 : book.crc32 ≡ book'.crc32
  pub bids : QuotesAlike pp qp book.bids book'.bids
  pub asks : QuotesAlike pp qp book.asks book'.asks

-- What goes into the checksum.
digits-QuotesAlike :
    (pp pp' qp qp' : ℕ) (asks asks' bids bids' : Side)
    → pp ≡ pp'
    → qp ≡ qp'
    → QuotesAlike pp qp asks asks'
    → QuotesAlike pp qp bids bids'
    → side_digits pp qp (take c_crc32_depth asks) ++ side_digits pp qp (take c_crc32_depth bids)
      ≡ side_digits pp' qp' (take c_crc32_depth asks')
        ++ side_digits pp' qp' (take c_crc32_depth bids')
digits-QuotesAlike pp pp' qp qp' asks asks' bids bids' ep eq ha hb =
    let best = Maps.take-Alike (PrintAlike pp) (PrintAlike qp) c_crc32_depth in
    rw
      (
        sym ep,
        sym eq,
        side_digits-QuotesAlike pp qp (take c_crc32_depth asks) (take c_crc32_depth asks')
            (best asks asks' ha),
        side_digits-QuotesAlike pp qp (take c_crc32_depth bids) (take c_crc32_depth bids')
            (best bids bids' hb),
      )
      refl

module _ (crc : Crc) where
  book_checksum-SidesAlike :
      (s s' : Sides) → SidesAlike s s' → book_checksum crc s ≡ book_checksum crc s'
  book_checksum-SidesAlike s s' h =
      ap (λ (digits : Bytes). crc.checksum (feed crc.process_byte crc.initial digits))
        (digits-QuotesAlike _ _ _ _ s.asks s'.asks s.bids s'.bids h.price_precision h.qty_precision
          h.asks h.bids)

  verdict-SidesAlike :
      (s s' : Sides) (expected expected' : ℕ)
      → SidesAlike s s'
      → expected ≡ expected'
      → verdict crc s expected ≡ verdict crc s' expected'
  verdict-SidesAlike s s' expected expected' h e = rw (book_checksum-SidesAlike s s' h, e) refl

  module _ (s s' : Sides) (book book' : Book) (some_digit : 1 ≤ s.qty_precision)
      (alike : SidesAlike s s')
      (messages : MessagesAlike s.price_precision s.qty_precision book book')
      (stored : IsStoredMessage s book) (stored' : IsStoredMessage s' book') where
    updated-SidesAlike : SidesAlike (accept_update crc s book).0 (accept_update crc s' book').0
    unfolding accept_update
    updated-SidesAlike = record {
      depth = alike.depth;
      price_precision = alike.price_precision;
      qty_precision = alike.qty_precision;
      bids = rw (sym alike.depth) (
          apply_update-QuotesAlike bid_less s.price_precision s.qty_precision some_digit
            (gt-PrintAlike s.price_precision) s.book_depth book.bids book'.bids s.bids s'.bids
            messages.bids alike.bids);
      asks = rw (sym alike.depth) (
          apply_update-QuotesAlike ask_less s.price_precision s.qty_precision some_digit
            (lt-PrintAlike s.price_precision) s.book_depth book.asks book'.asks s.asks s'.asks
            messages.asks alike.asks);
    }

    pub accept_update-SidesAlike :
        IsStoredBook s
        → IsStoredBook s'
        → SidesAlike (accept_update crc s book).0 (accept_update crc s' book').0
          × ((accept_update crc s book).1 ≡ (accept_update crc s' book').1)
    accept_update-SidesAlike kept kept' = (
      updated-SidesAlike,
      (accept_update-verdict crc s book kept stored).1
          ∙ verdict-SidesAlike _ _ _ _ updated-SidesAlike messages.crc32
          ∙ sym (accept_update-verdict crc s' book' kept' stored').1,
    )

    filled-SidesAlike : SidesAlike (accept_snapshot crc s book).0 (accept_snapshot crc s' book').0
    unfolding accept_snapshot
    filled-SidesAlike = record {
      depth = alike.depth;
      price_precision = alike.price_precision;
      qty_precision = alike.qty_precision;
      bids =
          Maps.insert_all-Alike (PrintAlike s.price_precision) (PrintAlike s.qty_precision) bid_less
            (gt-PrintAlike s.price_precision) book.bids book'.bids [] [] messages.bids tt;
      asks =
          Maps.insert_all-Alike (PrintAlike s.price_precision) (PrintAlike s.qty_precision) ask_less
            (lt-PrintAlike s.price_precision) book.asks book'.asks [] [] messages.asks tt;
    }

    pub accept_snapshot-SidesAlike :
        SidesAlike (accept_snapshot crc s book).0 (accept_snapshot crc s' book').0
        × ((accept_snapshot crc s book).1 ≡ (accept_snapshot crc s' book').1)
    accept_snapshot-SidesAlike = (
      filled-SidesAlike,
      (accept_snapshot-verdict crc s book stored).1
          ∙ verdict-SidesAlike _ _ _ _ filled-SidesAlike messages.crc32
          ∙ sym (accept_snapshot-verdict crc s' book' stored').1,
    )
