-- ===== src/TradesSink/Failing.antt =====
-- `trades_sink_t` of parquet/src/trade_sink.cpp where the writer fails.
use kraken_data_recorder.Base.{
  ℕ, suc, true, List, [], ◌∷◌, leb, ok, err, Error, ◌≡◌, inl, inr, refl, ap, sym, ◌∙◌, arith,
  Option-cases,
}
use kraken_data_recorder.Messages.{Header, Trade, Trades}
use kraken_data_recorder.Refdata.{Refdata, pair_precision}
use kraken_data_recorder.TradesSink.{
  Columns, TradesSink, no_columns, flush, flush_full, accept, destroy, c_flush_threshold,
  append_trades,
}
use kraken_data_recorder.TradesSink.Rows.{IsAligned}

-- A sink whose last batch counts rows that its columns do not hold.
torn-IsAligned :
    (s : TradesSink) (n : ℕ) (earlier : List (ℕ × Columns))
    → s.batches ≡ (n, no_columns) ∷ earlier
    → leb c_flush_threshold n ≡ true
    → ¬ IsAligned s
torn-IsAligned s n earlier e full (unwritten, written) =
    let (counted, others) = rw e at written in ground arith

flush-thrown :
    (s : TradesSink) (x : Error)
    → s.writer s.writes (s.num_rows, s.columns) ≡ err x
    → flush s ≡ (record s { columns = no_columns; writes = suc s.writes }, err x)
unfolding flush
flush-thrown s x fails = rw (flush, fails) refl

flush-batches :
    (s : TradesSink)
    → s.writer s.writes (s.num_rows, s.columns) ≡ ok tt
    → (flush s).0.batches ≡ (s.num_rows, s.columns) ∷ s.batches
unfolding flush
flush-batches s writes = rw (flush, writes) refl

-- What the loop leaves as it is.
append_trades-file :
    (header : Header) (trades : List Trade) (refdata : Refdata) (s : TradesSink)
    → (append_trades header trades refdata s).0.batches ≡ s.batches
unfolding append_trades
append_trades-file header [] refdata s = refl
append_trades-file header (trade ∷ trades) refdata s =
    elim (Option-cases (pair_precision trade.symbol refdata)) [
      | inl e ↦ rw (e, append_trades) refl
      | inr ((pp, qp), e) ↦ rw (e, append_trades) (append_trades-file header trades refdata _)
    ]

accept-thrown :
    (trades : Trades) (refdata : Refdata) (s filled : TradesSink) (x : Error)
    → append_trades trades.header trades.trades refdata s ≡ (filled, ok tt)
    → leb c_flush_threshold filled.num_rows ≡ true
    → filled.writer filled.writes (filled.num_rows, filled.columns) ≡ err x
    → accept trades refdata s
      ≡ (record filled { columns = no_columns; writes = suc filled.writes }, err x)
unfolding accept flush_full
accept-thrown trades refdata s filled x taken full fails =
    rw (taken, full) (flush-thrown filled x fails)

-- If the writer fails at the batch that `accept` of the trades sink has filled, then `accept` throws
-- that error, and if the writer takes the next batch, the destructor writes one that counts the rows
-- of the lost batch and whose columns are empty: what has been written is not aligned.
pub accept-destroy :
    (trades : Trades) (refdata : Refdata) (s filled : TradesSink) (x : Error)
    → append_trades trades.header trades.trades refdata s ≡ (filled, ok tt)
    → leb c_flush_threshold filled.num_rows ≡ true
    → filled.writer filled.writes (filled.num_rows, filled.columns) ≡ err x
    → filled.writer (suc filled.writes) (filled.num_rows, no_columns) ≡ ok tt
    → ((accept trades refdata s).1 ≡ err x)
      × ((destroy (accept trades refdata s).0).batches ≡ (filled.num_rows, no_columns) ∷ s.batches)
      × ¬ IsAligned (destroy (accept trades refdata s).0)
unfolding destroy
accept-destroy trades refdata s filled x taken full fails writes =
    let failed = accept-thrown trades refdata s filled x taken full fails in
    let kept : filled.batches ≡ s.batches =
      sym (ap (λ looped. looped.0.batches) taken)
      ∙ append_trades-file trades.header trades.trades refdata s in
    let torn : (destroy (accept trades refdata s).0).batches
        ≡ (filled.num_rows, no_columns) ∷ s.batches =
      ap (λ outcome. (flush outcome.0).0.batches) failed
      ∙ flush-batches (record filled { columns = no_columns; writes = suc filled.writes }) writes
      ∙ ap (λ (batches : List (ℕ × Columns)). (filled.num_rows, no_columns) ∷ batches) kept in
    (
      ap (λ outcome. outcome.1) failed,
      torn,
      torn-IsAligned (destroy (accept trades refdata s).0) filled.num_rows s.batches torn full,
    )
