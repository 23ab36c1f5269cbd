-- ===== src/Refdata.antt =====
-- `refdata_t` of include/refdata.hpp and src/refdata.cpp: what is known of the assets and pairs.
pub mod Latest
use kraken_data_recorder.Base.{ℕ, List, [], ◌∷◌, String, Option, none, some}
use kraken_data_recorder.Messages.{Asset, Pair, Instrument}
use kraken_data_recorder.UnorderedMap.{lookup, store}

pub record Refdata : Type 0 where
  pub assets : List (String × Asset)
  pub pairs : List (String × Pair)

abbrev pub empty_refdata : Refdata
empty_refdata = record { assets = []; pairs = [] }

-- The loops of `accept`.
pub store_assets : List Asset → List (String × Asset) → List (String × Asset)
store_assets [] known = known
store_assets (asset ∷ assets) known = store_assets assets (store asset.id asset known)

pub store_pairs : List Pair → List (String × Pair) → List (String × Pair)
store_pairs [] known = known
store_pairs (pair ∷ pairs) known = store_pairs pairs (store pair.symbol pair known)

unfoldable pub accept : Instrument → Refdata → Refdata
unfolding store_assets store_pairs
accept instrument r = record {
  assets = store_assets instrument.assets r.assets;
  pairs = store_pairs instrument.pairs r.pairs;
}

-- `pair_precision(symbol)`: the price precision and the quantity precision
unfoldable pub pair_precision : String → Refdata → Option (ℕ × ℕ)
pair_precision symbol r = elim (lookup symbol r.pairs) [
  | none ↦ none
  | some pair ↦ some (pair.price_precision, pair.qty_precision)
]
