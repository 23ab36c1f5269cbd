-- ===== src/TradesSink/Rows.antt =====
-- The rows and columns of parquet/src/trade_sink.cpp.
use kraken_data_recorder.TradesSink.Writes.{Works, flush_full-flushed}
use kraken_data_recorder.Base.{
  ℕ, suc, ◌+◌, List, [], ◌∷◌, none, some, leb, length, length-append, Result, ok, err, no_refdata,
  All, ◌≡◌, inl, inr, refl, ◌∙◌, arith, Bool-cases, Option-cases,
}
use kraken_data_recorder.Messages.{Header, Trade, Trades}
use kraken_data_recorder.Refdata.{Refdata, pair_precision}
use kraken_data_recorder.TradesSink.{
  Columns, TradesSink, append, append_trades, flush_full, accept, c_flush_threshold,
}

abbrev pub heights : Columns → List ℕ
heights c =
    length c.recv_tm
    ∷ length c.ord_type
    ∷ length c.price
    ∷ length c.qty
    ∷ length c.side
    ∷ length c.symbol
    ∷ length c.timestamp
    ∷ length c.trade_id
    ∷ []

-- All columns have a given number of rows.
abbrev pub HasRows : ℕ → Columns → Type 0
HasRows n c = All (λ height. height ≡ n) (heights c)

-- The rows that are not written are counted right, and so are those of the batches.
abbrev pub IsAligned : TradesSink → Type 0
IsAligned s = HasRows s.num_rows s.columns × All (λ batch. HasRows batch.0 batch.1) s.batches

-- The rows that the sink has taken, in the file or not yet.
abbrev pub rows_of : List (ℕ × Columns) → ℕ
rows_of [] = 0
rows_of ((n, c) ∷ batches) = n + rows_of batches

abbrev pub taken : TradesSink → ℕ
taken s = rows_of s.batches + s.num_rows

-- The trades before the first of a symbol that has no reference data, and that symbol.
unfoldable pub known : Refdata → List Trade → ℕ × Result (Unit {0})
known refdata [] = (0, ok tt)
known refdata (trade ∷ trades) =
    let rest = known refdata trades in
    elim (pair_precision trade.symbol refdata) [
      | none ↦ (0, err (no_refdata trade.symbol))
      | some precision ↦ (suc rest.0, rest.1)
    ]

append-HasRows :
    (header : Header) (trade : Trade) (pp qp n : ℕ) (c : Columns)
    → HasRows n c
    → HasRows (suc n) (append header trade pp qp c)
unfolding append
append-HasRows header trade pp qp n c h = omega (arith, length-append {0})

-- Aligned, over a writer that fails at no batch.
abbrev pub IsSound : TradesSink → Type 0
IsSound s = Works s × IsAligned s

append_trades-known :
    (header : Header) (trades : List Trade) (refdata : Refdata) (s : TradesSink)
    → IsSound s
    → IsSound (append_trades header trades refdata s).0
      × (taken (append_trades header trades refdata s).0 ≡ taken s + (known refdata trades).0)
      × ((append_trades header trades refdata s).1 ≡ (known refdata trades).1)
unfolding append_trades known
append_trades-known header [] refdata s h = (h, omega arith, refl)
append_trades-known header (trade ∷ trades) refdata s h =
    elim (Option-cases (pair_precision trade.symbol refdata)) [
      | inl e ↦ rw (e, append_trades, known) (h, omega arith, refl)
      | inr ((pp, qp), e) ↦
          let s' : TradesSink = record s {
            num_rows = suc s.num_rows;
            columns = append header trade pp qp s.columns;
          } in
          let aligned = append-HasRows header trade pp qp s.num_rows s.columns h.1.0 in
          let rest = append_trades-known header trades refdata s' (h.0, (aligned, h.1.1)) in
          rw (e, append_trades, known) (rest.0, omega (arith, rest.1), rest.2)
    ]

flush_full-IsSound :
    (s : TradesSink) (result : Result (Unit {0}))
    → IsSound s
    → IsSound (flush_full (s, result)).0
      × (taken (flush_full (s, result)).0 ≡ taken s)
      × ((flush_full (s, result)).1 ≡ result)
unfolding flush_full
flush_full-IsSound s (err x) h = (h, refl, refl)
flush_full-IsSound s (ok _) h =
    rw (flush_full-flushed s h.0) (elim (Bool-cases (leb c_flush_threshold s.num_rows)) [
      | inl full ↦ rw full ((h.0, ((omega arith), h.1)), omega arith, refl)
      | inr room ↦ rw room (h, refl, refl)
    ])

-- `accept` of the trades sink on aligned columns, over a writer that fails at no batch, leaves them
-- aligned, whether it throws or not. Each trade before the first of a symbol that has no reference
-- data is one more row, and the call throws exactly if there is such a trade, with its symbol.
pub accept-known :
    (trades : Trades) (refdata : Refdata) (s : TradesSink)
    → IsSound s
    → IsSound (accept trades refdata s).0
      × (taken (accept trades refdata s).0 ≡ taken s + (known refdata trades.trades).0)
      × ((accept trades refdata s).1 ≡ (known refdata trades.trades).1)
unfolding accept
accept-known trades refdata s h =
    let (s', result) = append_trades trades.header trades.trades refdata s in
    let looped = append_trades-known trades.header trades.trades refdata s h in
    let flushed = flush_full-IsSound s' result looped.0 in
    (flushed.0, omega (arith, flushed.1, looped.1), flushed.2 ∙ looped.2)
