-- ===== src/Sides/Sorted.antt =====
-- The order of the sides, along snapshots and updates.
use kraken_data_recorder.Base.{[]}
use kraken_data_recorder.Crc.{Crc}
use kraken_data_recorder.Decimal.Order.{IsDecimal}
use kraken_data_recorder.Messages.{Book}
use kraken_data_recorder.OrderedMap.Order.{IsSorted, insert_all-IsSorted}
use kraken_data_recorder.Sides.{Sides, ask_less, bid_less, accept_update, accept_snapshot}
use kraken_data_recorder.Sides.Depth.{apply_update_best}
use kraken_data_recorder.Sides.Order.{ask_order, bid_order}
use kraken_data_recorder.Sides.Update.{Priced}

-- Asks rise, bids fall, and every price can be compared.
abbrev pub IsSortedSides : Sides → Type 0
IsSortedSides s = IsSorted IsDecimal ask_less s.asks × IsSorted IsDecimal bid_less s.bids

-- The prices of a message can be compared.
abbrev pub IsPriced : Book → Type 0
IsPriced book = Priced book.asks × Priced book.bids

module _ (crc : Crc) where
  pub accept_update-IsSortedSides :
      (s : Sides) (book : Book)
      → IsPriced book
      → IsSortedSides s
      → IsSortedSides (accept_update crc s book).0
  unfolding accept_update
  accept_update-IsSortedSides s book p h = (
    (apply_update_best ask_order s.book_depth book.asks s.asks p.0 h.0).0,
    (apply_update_best bid_order s.book_depth book.bids s.bids p.1 h.1).0,
  )

  pub accept_snapshot-IsSortedSides :
      (s : Sides) (book : Book) → IsPriced book → IsSortedSides (accept_snapshot crc s book).0
  unfolding accept_snapshot
  accept_snapshot-IsSortedSides s book p = (
    insert_all-IsSorted ask_order book.asks [] p.0 tt,
    insert_all-IsSorted bid_order book.bids [] p.1 tt,
  )
