-- ===== src/Refdata/Latest.antt =====
-- The precision of a symbol is the one that the latest pair of that symbol gave it.
use text.Mathlib.Text.{◌==◌ as str_eq}
use kraken_data_recorder.Base.{
  ℕ, List, [], ◌∷◌, String, Option, none, some, if◌then◌else◌, ◌≡◌, refl, arith,
}
use kraken_data_recorder.Messages.{Pair, Instrument}
use kraken_data_recorder.Refdata.{Refdata, store_pairs, accept, pair_precision}
use kraken_data_recorder.UnorderedMap.{lookup, store, lookup-store}

-- What the pairs of a message, in order, make of the precision of a symbol.
unfoldable pub latest : String → List Pair → Option (ℕ × ℕ) → Option (ℕ × ℕ)
latest symbol [] known = known
latest symbol (pair ∷ pairs) known =
    latest symbol pairs
      (if str_eq pair.symbol symbol then some (pair.price_precision, pair.qty_precision) else known)

abbrev precision : Option Pair → Option (ℕ × ℕ)
precision none = none
precision (some pair) = some (pair.price_precision, pair.qty_precision)

precision-store :
    (symbol : String) (pair : Pair) (known : List (String × Pair))
    → precision (lookup symbol (store pair.symbol pair known)) ≡ (
        if str_eq pair.symbol symbol
        then some (pair.price_precision, pair.qty_precision)
        else precision (lookup symbol known))
precision-store symbol pair known = ground (arith, lookup-store pair.symbol symbol pair known)

lookup-store_pairs :
    (symbol : String) (pairs : List Pair) (known : List (String × Pair))
    → precision (lookup symbol (store_pairs pairs known))
      ≡ latest symbol pairs (precision (lookup symbol known))
unfolding store_pairs latest
lookup-store_pairs symbol [] known = refl
lookup-store_pairs symbol (pair ∷ pairs) known =
    rw
      (
        lookup-store_pairs symbol pairs (store pair.symbol pair known),
        precision-store symbol pair known,
      )
      refl

-- After an instrument message, the precisions of a symbol are those of the last pair of the
-- message with that symbol, or what they were, if the message has none.
pub pair_precision-accept :
    (symbol : String) (instrument : Instrument) (r : Refdata)
    → pair_precision symbol (accept instrument r)
      ≡ latest symbol instrument.pairs (pair_precision symbol r)
unfolding pair_precision accept
pair_precision-accept symbol instrument r = lookup-store_pairs symbol instrument.pairs r.pairs
