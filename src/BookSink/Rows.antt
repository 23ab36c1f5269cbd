-- ===== src/BookSink/Rows.antt =====
-- The columns of the book sink stay aligned, and each book that is accepted is one more row.
use kraken_data_recorder.Arrow.{Writer}
use kraken_data_recorder.BookSink.Writes.{Works, flush_full-flushed}
use kraken_data_recorder.Base.{
  ℕ, suc, ◌+◌, ◌<◌, List, [], ◌∷◌, ◌++◌, none, leb, length, length-append, ok, err, no_refdata, All,
  ◌≡◌, ◌⊎◌, inl, inr, refl, arith, Bool-cases, Option-cases,
}
use kraken_data_recorder.Messages.{Book}
use kraken_data_recorder.Refdata.{Refdata, pair_precision}
use kraken_data_recorder.BookSink.{
  Columns, BookSink, no_columns, new_sink, append, flush_full, accept, c_flush_threshold,
}

-- All columns have a given number of rows.
pub record HasRows (n : ℕ) (c : Columns) : Type 0 where
  pub recv_tm : length c.recv_tm ≡ n
  pub kind : length c.kind ≡ n
  pub bids : length c.bids ≡ n
  pub asks : length c.asks ≡ n
  pub crc32 : length c.crc32 ≡ n
  pub symbol : length c.symbol ≡ n
  pub timestamp : length c.timestamp ≡ n

-- The rows that are not written are fewer than the threshold and counted right, and so are those
-- of the batches.
abbrev pub IsAligned : BookSink → Type 0
IsAligned s =
    (s.num_rows < c_flush_threshold)
    × HasRows s.num_rows s.columns
    × All (λ batch. HasRows batch.0 batch.1) s.batches

-- The rows in the file.
abbrev pub written : List (ℕ × Columns) → ℕ
written [] = 0
written ((n, c) ∷ batches) = n + written batches

pub new_sink-IsAligned : (writer : Writer Columns) → IsAligned (new_sink writer)
new_sink-IsAligned writer = (
  omega arith,
  record {
    recv_tm = refl;
    kind = refl;
    bids = refl;
    asks = refl;
    crc32 = refl;
    symbol = refl;
    timestamp = refl;
  },
  tt,
)

longer :
    {A : Type 0} (xs : List A) (a : A) (n : ℕ) → length xs ≡ n → length (xs ++ (a ∷ [])) ≡ suc n
longer xs a n e = omega (arith, length-append xs (a ∷ []))

append-HasRows :
    (pp qp n : ℕ) (book : Book) (c : Columns) → HasRows n c → HasRows (suc n) (append pp qp book c)
unfolding append
append-HasRows pp qp n book c h = record {
  recv_tm = longer c.recv_tm _ n h.recv_tm;
  kind = longer c.kind _ n h.kind;
  bids = longer c.bids _ n h.bids;
  asks = longer c.asks _ n h.asks;
  crc32 = longer c.crc32 _ n h.crc32;
  symbol = longer c.symbol _ n h.symbol;
  timestamp = longer c.timestamp _ n h.timestamp;
}

-- Aligned, over a writer that fails at no batch.
abbrev pub IsSound : BookSink → Type 0
IsSound s = Works s × IsAligned s

flush_full-IsSound :
    (s : BookSink)
    → Works s
    → s.num_rows < suc c_flush_threshold
    → HasRows s.num_rows s.columns
    → All (λ batch. HasRows batch.0 batch.1) s.batches
    → IsSound (flush_full s).0
      × ((flush_full s).1 ≡ ok tt)
      × (written (flush_full s).0.batches + (flush_full s).0.num_rows
          ≡ written s.batches + s.num_rows)
flush_full-IsSound s works h rows batches =
    rw (flush_full-flushed s works) (elim (Bool-cases (leb c_flush_threshold s.num_rows)) [
      | inl full ↦
          let none_left : HasRows 0 no_columns = record {
            recv_tm = refl;
            kind = refl;
            bids = refl;
            asks = refl;
            crc32 = refl;
            symbol = refl;
            timestamp = refl;
          } in
          rw full ((works, (omega arith, none_left, (rows, batches))), refl, omega arith)
      | inr room ↦ rw room ((works, (ground arith, rows, batches)), refl, refl)
    ])

-- `accept` of the book sink on aligned columns, over a writer that fails at no batch, leaves them
-- aligned. A book of a symbol with reference data is one more row, in the file or not yet; any other
-- changes nothing and throws.
pub accept-IsSound :
    (book : Book) (refdata : Refdata) (s : BookSink)
    → IsSound s
    → IsSound (accept book refdata s).0
      × (((pair_precision book.symbol refdata ≡ none)
            × (accept book refdata s ≡ (s, err (no_refdata book.symbol))))
          ⊎ (((accept book refdata s).1 ≡ ok tt)
              × (written (accept book refdata s).0.batches + (accept book refdata s).0.num_rows
                  ≡ suc (written s.batches + s.num_rows))))
unfolding accept
accept-IsSound book refdata s h = elim (Option-cases (pair_precision book.symbol refdata)) [
  | inl e ↦ rw (e, accept) (h, inl (refl, refl))
  | inr ((pp, qp), e) ↦
      let one_more =
        flush_full-IsSound
          (record s { num_rows = suc s.num_rows; columns = append pp qp book s.columns }) h.0
          (omega (arith, h.1.0)) (append-HasRows pp qp s.num_rows book s.columns h.1.1) h.1.2 in
      rw (e, accept) (one_more.0, inr (one_more.1, omega (arith, one_more.2)))
]
