-- ===== src/Sides/Stored.antt =====
-- An update or a snapshot whose quotes are stored with room leaves a book that is, so that its
-- checksum is the one by the rule.
use kraken_data_recorder.Base.{
  ℕ, zero, suc, Bool, true, false, List, [], ◌∷◌, if◌then◌else◌, take, ◌≡◌, arith, All,
}
use kraken_data_recorder.Crc.{Crc}
use kraken_data_recorder.Decimal.{Decimal}
use kraken_data_recorder.Messages.{Quote, Book}
use kraken_data_recorder.OrderedMap.{insert, erase, assign, insert_all}
use kraken_data_recorder.Sides.Checksum.{
  StoredLevel, IsStoredBook, verdict, verify_checksum-verdict,
}
use kraken_data_recorder.Sides.Depth.{truncate-take}
use kraken_data_recorder.Sides.{
  Side, Sides, apply_quote, apply_quotes, apply_update, accept_update, accept_snapshot, bid_less,
  ask_less,
}

module _ (less : Decimal → Decimal → Bool) (pp qp : ℕ) where
  abbrev Stored : List Quote → Type 0
  Stored = All (StoredLevel pp qp)

  insert-Stored :
      (price qty : Decimal) (side : Side)
      → StoredLevel pp qp (price, qty)
      → Stored side
      → Stored (insert less (price, qty) side)
  unfolding insert
  insert-Stored price qty [] h s = (h, tt)
  insert-Stored price qty ((k, v) ∷ side) h s =
      let rest = insert-Stored price qty side h s.1 in
      elim (less price k)
        as (λ b. Stored (
          if b
          then (price, qty) ∷ (k, v) ∷ side
          else if less k price
          then (k, v) ∷ insert less (price, qty) side
          else (k, v) ∷ side)) [
            | true ↦ (h, s)
            | false ↦
                elim (less k price)
                  as (λ b.
                    Stored (if b then (k, v) ∷ insert less (price, qty) side else (k, v) ∷ side)) [
                      | true ↦ (s.0, rest)
                      | false ↦ s
                    ]
          ]

  erase-Stored : (price : Decimal) (side : Side) → Stored side → Stored (erase less price side)
  unfolding erase
  erase-Stored price [] s = tt
  erase-Stored price ((k, v) ∷ side) s = ground (arith, erase-Stored price side s.1)

  assign-Stored :
      (price qty : Decimal) (side : Side)
      → StoredLevel pp qp (price, qty)
      → Stored side
      → Stored (assign less price qty side)
  unfolding assign
  assign-Stored price qty [] h s = tt
  assign-Stored price qty ((k, v) ∷ side) h s = ground (arith, assign-Stored price qty side h s.1)

  take-Stored : (n : ℕ) (side : Side) → Stored side → Stored (take n side)
  take-Stored zero side s = tt
  take-Stored (suc n) [] s = tt
  take-Stored (suc n) (level ∷ side) s = (s.0, take-Stored n side s.1)

  apply_quote-Stored :
      (side : Side) (quote : Quote)
      → StoredLevel pp qp quote
      → Stored side
      → Stored (apply_quote less side quote)
  unfolding apply_quote
  apply_quote-Stored side (price, qty) h s = ground (
    arith,
    insert-Stored price qty side h s,
    erase-Stored price side s,
    assign-Stored price qty side h s,
  )

  apply_quotes-Stored :
      (quotes : List Quote) (side : Side)
      → Stored quotes
      → Stored side
      → Stored (apply_quotes less side quotes)
  unfolding apply_quotes
  apply_quotes-Stored [] side h s = s
  apply_quotes-Stored (quote ∷ quotes) side h s =
      apply_quotes-Stored quotes (apply_quote less side quote) h.1
        (apply_quote-Stored side quote h.0 s)

  apply_update-Stored :
      (depth : ℕ) (quotes : List Quote) (side : Side)
      → Stored quotes
      → Stored side
      → Stored (apply_update less depth quotes side)
  unfolding apply_update
  apply_update-Stored depth quotes side h s =
      let full = apply_quotes less side quotes in
      rw (truncate-take depth full) (take-Stored depth full (apply_quotes-Stored quotes side h s))

  insert_all-Stored :
      (quotes : List Quote) (side : Side)
      → Stored quotes
      → Stored side
      → Stored (insert_all less quotes side)
  unfolding insert_all
  insert_all-Stored [] side h s = s
  insert_all-Stored ((price, qty) ∷ quotes) side h s =
      insert_all-Stored quotes (insert less (price, qty) side) h.1
        (insert-Stored price qty side h.0 s)

-- The quotes of a message are stored with room for the precisions of the book.
abbrev pub IsStoredMessage : Sides → Book → Type 0
IsStoredMessage s book =
    All (StoredLevel s.price_precision s.qty_precision) book.asks
    × All (StoredLevel s.price_precision s.qty_precision) book.bids

module _ (crc : Crc) (s : Sides) (book : Book) where
  -- `accept_update` on a stored book: the book stays stored, and the call succeeds exactly if the
  -- checksum of the message is the one by the rule of the book that the call leaves behind, which
  -- is the updated one also where the call fails.
  pub accept_update-verdict :
      IsStoredBook s
      → IsStoredMessage s book
      → IsStoredBook (accept_update crc s book).0
        × ((accept_update crc s book).1 ≡ verdict crc (accept_update crc s book).0 book.crc32)
  unfolding accept_update
  accept_update-verdict h m =
      (stored, verify_checksum-verdict crc (accept_update crc s book).0 book.crc32 stored)
    where
      stored : IsStoredBook (accept_update crc s book).0
      stored = (
        apply_update-Stored ask_less s.price_precision s.qty_precision s.book_depth book.asks s.asks
            m.0 h.0,
        apply_update-Stored bid_less s.price_precision s.qty_precision s.book_depth book.bids s.bids
            m.1 h.1,
      )

  -- `accept_snapshot` likewise, whatever the book held before.
  pub accept_snapshot-verdict :
      IsStoredMessage s book
      → IsStoredBook (accept_snapshot crc s book).0
        × ((accept_snapshot crc s book).1 ≡ verdict crc (accept_snapshot crc s book).0 book.crc32)
  unfolding accept_snapshot
  accept_snapshot-verdict m =
      (stored, verify_checksum-verdict crc (accept_snapshot crc s book).0 book.crc32 stored)
    where
      stored : IsStoredBook (accept_snapshot crc s book).0
      stored = (
        insert_all-Stored ask_less s.price_precision s.qty_precision book.asks [] m.0 tt,
        insert_all-Stored bid_less s.price_precision s.qty_precision book.bids [] m.1 tt,
      )
