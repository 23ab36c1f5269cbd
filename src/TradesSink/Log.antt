-- ===== src/TradesSink/Log.antt =====
-- `trades_sink_t` as a log of rows.
use kraken_data_recorder.Arrow.{Writer, NeverFails}
use kraken_data_recorder.Base.{
  ℕ, suc, ℤ, to_u64, List, [], ◌∷◌, ◌++◌, String, none, some, leb, map, map-append, append-nil,
  append_assoc, Result, ok, err, no_refdata, ◌≡◌, ◌∙◌, inl, inr, refl, sym, Bool-cases,
  Option-cases,
}
use kraken_data_recorder.Decimal
use kraken_data_recorder.Decimal.{Bytes}
use kraken_data_recorder.Messages.{Header, Trade, Trades}
use kraken_data_recorder.Refdata.{Refdata, pair_precision}
use kraken_data_recorder.RowLog
use kraken_data_recorder.RowLog.{Holds-append, Holds-flush, Holds-IsFile}
use kraken_data_recorder.TradesSink.Writes.{Works, flushed, flush-flushed, flush_full-flushed}
use kraken_data_recorder.TradesSink.{
  Columns, TradesSink, no_columns, new_sink, append, append_trades, destroy, flush_full, accept,
  c_flush_threshold,
}

pub record Row : Type 0 where
  pub recv_tm : ℤ
  pub ord_type : Bytes
  pub price : Bytes
  pub qty : Bytes
  pub side : Bytes
  pub symbol : String
  pub timestamp : ℤ
  pub trade_id : ℕ

-- The row of a trade: its members, with price and quantity printed at the precisions of its symbol.
abbrev pub row_of : Header → ℕ × ℕ → Trade → Row
row_of header (pp, qp) trade = record {
  recv_tm = header.recv_tm;
  ord_type = trade.ord_type ∷ [];
  price = Decimal.str_to trade.price pp;
  qty = Decimal.str_to trade.qty qp;
  side = trade.side ∷ [];
  symbol = trade.symbol;
  timestamp = trade.timestamp;
  trade_id = to_u64 trade.trade_id;
}

abbrev pub columns_of : List Row → Columns
columns_of rows = record {
  recv_tm = map (λ row. row.recv_tm) rows;
  ord_type = map (λ row. row.ord_type) rows;
  price = map (λ row. row.price) rows;
  qty = map (λ row. row.qty) rows;
  side = map (λ row. row.side) rows;
  symbol = map (λ row. row.symbol) rows;
  timestamp = map (λ row. row.timestamp) rows;
  trade_id = map (λ row. row.trade_id) rows;
}

-- The sink holds a log, and its writer fails at no batch.
abbrev pub Holds : TradesSink → List Row → Type 0
Holds s log = Works s × RowLog.Holds columns_of s.num_rows s.columns s.batches log

pub new_sink-Holds : (writer : Writer Columns) → NeverFails writer → Holds (new_sink writer) []
new_sink-Holds writer works = (
  works,
  record { file = []; unwritten = []; counted = refl; built = refl; written = refl; all = refl },
)

-- The rows of the trades before the first of a symbol that has no reference data, and what is
-- thrown at that one.
unfoldable pub rows_of : Header → Refdata → List Trade → List Row × Result (Unit {0})
rows_of header refdata [] = ([], ok tt)
rows_of header refdata (trade ∷ trades) =
    let rest = rows_of header refdata trades in
    elim (pair_precision trade.symbol refdata) [
      | none ↦ ([], err (no_refdata trade.symbol))
      | some precision ↦ (row_of header precision trade ∷ rest.0, rest.1)
    ]

append-columns_of :
    (header : Header) (trade : Trade) (pp qp : ℕ) (rows : List Row)
    → append header trade pp qp (columns_of rows)
      ≡ columns_of (rows ++ (row_of header (pp, qp) trade ∷ []))
unfolding append
append-columns_of header trade pp qp rows = simp map-append

append_trades-Holds :
    (header : Header) (trades : List Trade) (refdata : Refdata) (s : TradesSink) (log : List Row)
    → Holds s log
    → Holds (append_trades header trades refdata s).0 (log ++ (rows_of header refdata trades).0)
      × ((append_trades header trades refdata s).1 ≡ (rows_of header refdata trades).1)
unfolding append_trades rows_of
append_trades-Holds header [] refdata s log h = (rw (append-nil log) h, refl)
append_trades-Holds header (trade ∷ trades) refdata s log h =
    elim (Option-cases (pair_precision trade.symbol refdata)) [
      | inl e ↦ rw (e, append_trades, rows_of) (rw (append-nil log) h, refl)
      | inr ((pp, qp), e) ↦
          let row = row_of header (pp, qp) trade in
          let columns' = append header trade pp qp s.columns in
          let longer =
            Holds-append columns_of columns' row
              (λ rows built. rw built (append-columns_of header trade pp qp rows)) h.1 in
          let rest =
            append_trades-Holds header trades refdata
              (record s { num_rows = suc s.num_rows; columns = columns' }) (log ++ (row ∷ []))
              (h.0, longer) in
          rw (e, append_trades, rows_of)
            (
              rw (sym (append_assoc log (row ∷ []) (rows_of header refdata trades).0)) rest.0,
              rest.1,
            )
    ]

pub flushed-Holds : (s : TradesSink) (log : List Row) → Holds s log → Holds (flushed s) log
flushed-Holds s log h = (h.0, Holds-flush columns_of no_columns refl h.1)

flush_full-Holds :
    (s : TradesSink) (result : Result (Unit {0})) (log : List Row)
    → Holds s log
    → Holds (flush_full (s, result)).0 log × ((flush_full (s, result)).1 ≡ result)
unfolding flush_full
flush_full-Holds s (err x) log h = (h, refl)
flush_full-Holds s (ok _) log h =
    rw (flush_full-flushed s h.0) (elim (Bool-cases (leb c_flush_threshold s.num_rows)) [
      | inl full ↦ rw full (flushed-Holds s log h, refl)
      | inr room ↦ rw room (h, refl)
    ])

-- `accept` of the trades sink, over a writer that fails at no batch, is an append to a log, whether it
-- throws or not: the trades of the message before the first of a symbol without reference data are,
-- in order, the rows at the end of the log that the sink holds, their prices and quantities printed
-- at the precisions of their symbols; the call throws exactly if there is such a trade, with its
-- symbol.
pub accept-rows_of :
    (trades : Trades) (refdata : Refdata) (s : TradesSink) (log : List Row)
    → Holds s log
    → Holds (accept trades refdata s).0 (log ++ (rows_of trades.header refdata trades.trades).0)
      × ((accept trades refdata s).1 ≡ (rows_of trades.header refdata trades.trades).1)
unfolding accept
accept-rows_of trades refdata s log h =
    let (s', result) = append_trades trades.header trades.trades refdata s in
    let looped = append_trades-Holds trades.header trades.trades refdata s log h in
    let flushed = flush_full-Holds s' result _ looped.0 in (flushed.0, flushed.1 ∙ looped.1)

-- What the destructor of a sink that holds a log leaves is a file of its rows.
pub destroy-IsFile :
    (s : TradesSink) (log : List Row)
    → Holds s log
    → RowLog.IsFile columns_of (destroy s).batches log
unfolding destroy
destroy-IsFile s log h = rw (destroy, flush-flushed s h.0) (Holds-IsFile columns_of no_columns h.1)
