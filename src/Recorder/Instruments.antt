-- ===== src/Recorder/Instruments.antt =====
-- What an instrument message leaves as it is, also where a writer fails.
use kraken_data_recorder.AssetsSink
use kraken_data_recorder.Base.{◌≡◌, inl, inr, refl, Result-cases}
use kraken_data_recorder.Messages.{Instrument}
use kraken_data_recorder.PairsSink
use kraken_data_recorder.Recorder.{Recorder, accept_instrument}

pub accept_instrument-sinks :
    (response : Instrument) (r : Recorder)
    → ((accept_instrument response r).0.book_sink ≡ r.book_sink)
      × ((accept_instrument response r).0.trades_sink ≡ r.trades_sink)
unfolding accept_instrument
accept_instrument-sinks response r =
    elim (Result-cases (AssetsSink.accept response.header response.assets r.assets_sink).1) [
      | inl (x, e) ↦ rw (accept_instrument, e) (refl, refl)
      | inr (done, e) ↦
          elim (Result-cases (PairsSink.accept response.header response.pairs r.pairs_sink).1) [
            | inl (x, f) ↦ rw (accept_instrument, e, f) (refl, refl)
            | inr (written, f) ↦ rw (accept_instrument, e, f) (refl, refl)
          ]
    ]
