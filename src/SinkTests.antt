-- ===== src/SinkTests.antt =====
-- Instances of the theorems on the sinks over a writer of Arrow that fails.
use kraken_data_recorder.AssetsSink
use kraken_data_recorder.PairsSink
use kraken_data_recorder.Base.{zero, suc, pos, [], ◌∷◌, replicate, err, ok, external, ◌≡◌, refl}
use kraken_data_recorder.Messages.{Trades}
use kraken_data_recorder.Recorder
use kraken_data_recorder.Refdata
use kraken_data_recorder.UnorderedMap
use kraken_data_recorder.TestData.{header, trade, recorder}
use kraken_data_recorder.TradesSink.{
  TradesSink, Columns, no_columns, new_sink, append, append_trades, accept, destroy,
}
use kraken_data_recorder.TradesSink.Failing.{accept-destroy}
use kraken_data_recorder.Arrow.{Writer}
use kraken_data_recorder.TradesSink.Rows.{IsAligned}

-- A disk that is full once.
abbrev full_once : Writer Columns
full_once zero batch = err (external 28)
full_once (suc calls) batch = ok tt

abbrev one_trade : Trades
one_trade = record { header = header; trades = record trade { symbol = "BTC/USD" } ∷ [] }

-- One row is missing.
abbrev almost_full : TradesSink
almost_full = record (new_sink full_once) {
  num_rows = 4095;
  columns = record {
    recv_tm = replicate 4095 (pos 0);
    ord_type = replicate 4095 (b'm' ∷ []);
    price = replicate 4095 (b'1' ∷ []);
    qty = replicate 4095 (b'1' ∷ []);
    side = replicate 4095 (b'b' ∷ []);
    symbol = replicate 4095 "BTC/USD";
    timestamp = replicate 4095 (pos 0);
    trade_id = replicate 4095 1;
  };
}

accept-destroy_example :
    ((accept one_trade recorder.refdata almost_full).1 ≡ err (external 28))
    × ((destroy (accept one_trade recorder.refdata almost_full).0).batches
        ≡ (4096, no_columns) ∷ [])
    × ¬ IsAligned (destroy (accept one_trade recorder.refdata almost_full).0)
unfolding append_trades append Refdata.pair_precision UnorderedMap.lookup Recorder.accept_instrument
    AssetsSink.accept PairsSink.accept Refdata.accept UnorderedMap.store
accept-destroy_example =
    accept-destroy one_trade recorder.refdata almost_full
      (append_trades header one_trade.trades recorder.refdata almost_full).0 (external 28) refl refl
      refl refl
