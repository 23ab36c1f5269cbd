-- ===== src/Recorder/Run.antt =====
-- The states of the recorder that the loop of `main` reaches.
use kraken_data_recorder.Base.{
  Result-cases, ℤ, arith, false, List, [], ◌∷◌, ◌≡◌, refl, Result, ok, err, All, Ensures,
  Bool-cases, inl, inr,
}
use kraken_data_recorder.AssetsSink
use kraken_data_recorder.AssetsSink.Batches as AssetsBatches
use kraken_data_recorder.BookSink
use kraken_data_recorder.BookSink.Rows as BookRows
use kraken_data_recorder.Config.{Config}
use kraken_data_recorder.Crc.{Crc}
use kraken_data_recorder.Decimal.Bounds.{IsRead-IsDecimal}
use kraken_data_recorder.Engine.{Environment, new_engine}
use kraken_data_recorder.Engine.Keeps.{Keeps}
use kraken_data_recorder.LevelBook.Sorted.{
  IsSortedBook, accept_pair-IsSortedBook, accept_book-IsSortedBook,
}
use kraken_data_recorder.LevelBook.{LevelBook}
use kraken_data_recorder.Messages.{Pair, Book, Instrument, Trades, Quote}
use kraken_data_recorder.Messages.Decoded.{IsKeptQuote, book_from_json-IsKept}
use kraken_data_recorder.Messages.FromJson.{Readers, book_from_json}
use kraken_data_recorder.PairsSink
use kraken_data_recorder.PairsSink.Batches as PairsBatches
use kraken_data_recorder.Refdata.{pair_precision}
use kraken_data_recorder.Requests.{Json}
use kraken_data_recorder.UnorderedMap.{lookup}
use kraken_data_recorder.Decimal.{Bytes}
use kraken_data_recorder.Session.{Write, start_processing, new_session}
use kraken_data_recorder.Sides.Sorted.{IsPriced}
use kraken_data_recorder.Sides.Update.{Priced}
use kraken_data_recorder.Simdjson.{Simdjson}
use kraken_data_recorder.TradesSink.Rows as TradeRows
use kraken_data_recorder.Recorder.{
  Recorder, FileWriters, WritersWork, new_recorder, accept_pairs, accept_instrument, accept_book,
  accept_trades, after_recorded,
}
use kraken_data_recorder.Recorder.Loop.{Event, run, started}
use kraken_data_recorder.Recorder.Agree.{IsAgreed, accept_instrument-IsAgreed, accept_book-IsAgreed}
use kraken_data_recorder.Recorder.Keeps.{run-IsKept}
use kraken_data_recorder.Recorder.Parse.{environment_of}

pub record IsConsistent (r : Recorder) : Type 0 where
  pub agreed : IsAgreed r.refdata r.level_book
  pub sorted : IsSortedBook r.level_book
  pub book_rows : BookRows.IsSound r.book_sink
  pub trade_rows : TradeRows.IsSound r.trades_sink
  pub assets_done : r.assets_sink.columns ≡ AssetsSink.no_columns
  pub pairs_done : r.pairs_sink.columns ≡ PairsSink.no_columns

pub new_recorder-IsConsistent :
    (writers : FileWriters) (config : Config)
    → WritersWork writers
    → IsConsistent (new_recorder writers config)
unfolding pair_precision lookup
new_recorder-IsConsistent writers config work = record {
  agreed = λ q. refl;
  sorted = tt;
  book_rows = (work.0, BookRows.new_sink-IsAligned writers.books);
  trade_rows = (work.1, (omega arith, tt));
  assets_done = refl;
  pairs_done = refl;
}

accept_pairs-IsSortedBook :
    (pairs : List Pair) (b : LevelBook) → IsSortedBook b → IsSortedBook (accept_pairs pairs b)
unfolding accept_pairs
accept_pairs-IsSortedBook [] b h = h
accept_pairs-IsSortedBook (pair ∷ pairs) b h =
    accept_pairs-IsSortedBook pairs _ (accept_pair-IsSortedBook b pair h)

pub accept_instrument-IsConsistent :
    (response : Instrument) (r : Recorder)
    → IsConsistent r
    → IsConsistent (accept_instrument response r).0
unfolding accept_instrument
accept_instrument-IsConsistent response r h =
    let assets = AssetsBatches.columns-accept response.header response.assets r.assets_sink in
    let pairs = PairsBatches.columns-accept response.header response.pairs r.pairs_sink in
    elim (Result-cases (AssetsSink.accept response.header response.assets r.assets_sink).1) [
      | inl (x, e) ↦
          rw (accept_instrument, e)
            record {
              agreed = h.agreed;
              sorted = h.sorted;
              book_rows = h.book_rows;
              trade_rows = h.trade_rows;
              assets_done = assets;
              pairs_done = h.pairs_done;
            }
      | inr (done, e) ↦
          elim (Result-cases (PairsSink.accept response.header response.pairs r.pairs_sink).1) [
            | inl (x, f) ↦
                rw (accept_instrument, e, f)
                  record {
                    agreed = h.agreed;
                    sorted = h.sorted;
                    book_rows = h.book_rows;
                    trade_rows = h.trade_rows;
                    assets_done = assets;
                    pairs_done = pairs;
                  }
            | inr (written, f) ↦
                rw (accept_instrument, e, f)
                  record {
                    agreed = accept_instrument-IsAgreed response r.refdata r.level_book h.agreed;
                    sorted = accept_pairs-IsSortedBook response.pairs r.level_book h.sorted;
                    book_rows = h.book_rows;
                    trade_rows = h.trade_rows;
                    assets_done = assets;
                    pairs_done = pairs;
                  }
          ]
    ]

accept_trades-IsConsistent :
    (response : Trades) (r : Recorder) → IsConsistent r → IsConsistent (accept_trades response r).0
unfolding accept_trades
accept_trades-IsConsistent response r h = record {
  agreed = h.agreed;
  sorted = h.sorted;
  book_rows = h.book_rows;
  trade_rows = (TradeRows.accept-known response r.refdata r.trades_sink h.trade_rows).0;
  assets_done = h.assets_done;
  pairs_done = h.pairs_done;
}

accept_book-IsConsistent :
    (crc : Crc) (response : Book) (r : Recorder)
    → IsPriced response
    → IsConsistent r
    → IsConsistent (accept_book crc response r).0
unfolding accept_book
accept_book-IsConsistent crc response r priced h =
    by_recorded _ _ (BookRows.accept-IsSound response r.refdata r.book_sink h.book_rows).0
      (accept_book-IsAgreed crc response r.refdata r.level_book h.agreed)
      (accept_book-IsSortedBook crc r.level_book response priced h.sorted)
  where
    by_recorded :
        (recorded : BookSink.BookSink × Result (Unit {0})) (booked : LevelBook × Result (Unit {0}))
        → BookRows.IsSound recorded.0
        → IsAgreed r.refdata booked.0
        → IsSortedBook booked.0
        → IsConsistent (after_recorded r recorded booked).0
    by_recorded (book_sink, err x) booked rows agreed sorted = record {
      agreed = h.agreed;
      sorted = h.sorted;
      book_rows = rows;
      trade_rows = h.trade_rows;
      assets_done = h.assets_done;
      pairs_done = h.pairs_done;
    }
    by_recorded (book_sink, ok _) (level_book, result) rows agreed sorted = record {
      agreed = agreed;
      sorted = sorted;
      book_rows = rows;
      trade_rows = h.trade_rows;
      assets_done = h.assets_done;
      pairs_done = h.pairs_done;
    }

quotes-Priced : (quotes : List Quote) → All IsKeptQuote quotes → Priced quotes
quotes-Priced [] h = tt
quotes-Priced (quote ∷ quotes) h = (IsRead-IsDecimal quote.0 h.0.0.0, quotes-Priced quotes h.1)

Ensures-map :
    {A : Type 0} {P Q : A → Type 0} (m : Result A)
    → ((a : A) → P a → Q a)
    → Ensures P m
    → Ensures Q m
Ensures-map (err x) f h = tt
Ensures-map (ok a) f h = f a h

module _ (json : Simdjson) (readers : Readers json.Value) (pong : json.Value → Result (Unit {0}))
    (now_at : json.Value → ℤ) (crc : Crc) (serialize : Json → Bytes) (write : Write)
    (config : Config) where
  abbrev pub env : Environment Recorder
  env = environment_of json readers pong now_at crc serialize write config

  env-Keeps : Keeps env IsConsistent IsPriced
  env-Keeps = record {
    instrument = accept_instrument-IsConsistent;
    book = λ response r priced h. elim (Bool-cases config.capture_book) [
      | inl on ↦ rw on (accept_book-IsConsistent crc response r priced h)
      | inr off ↦ rw off h
    ];
    trades = λ response r h. elim (Bool-cases config.capture_trades) [
      | inl on ↦ rw on (accept_trades-IsConsistent response r h)
      | inr off ↦ rw off h
    ];
    parsed = λ doc.
        Ensures-map (book_from_json json readers (now_at doc) doc)
          (λ book kept. (quotes-Priced book.asks kept.0, quotes-Priced book.bids kept.1))
          (book_from_json-IsKept json readers (now_at doc) doc);
  }

  -- In every state that the program reaches from its start, whatever arrives and whatever simdjson
  -- returns, where the writers of the book and trade sinks fail at no batch: the reference data and
  -- the level book know the same symbols with the same precisions, the sides of every symbol are
  -- sorted, the columns of the book and trade sinks are aligned, with fewer books than the threshold
  -- not yet written, and the builders of the other two sinks are empty.
  pub run-IsConsistent :
      (writers : FileWriters) (events : List Event)
      → WritersWork writers
      → IsConsistent (run env events (started env (new_recorder writers config))).0.1.1.1
  run-IsConsistent writers events work =
      (run-IsKept env IsConsistent IsPriced env-Keeps events false
        (start_processing new_session, (new_engine, new_recorder writers config))
        (tt, new_recorder-IsConsistent writers config work)).1
