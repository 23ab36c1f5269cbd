-- ===== src/UnorderedMap.antt =====
-- `std::unordered_map` with `std::string` keys, as src/level_book.cpp and src/refdata.cpp use it:
-- no operation of theirs depends on the order of the entries.
use text.Mathlib.Text.{◌==◌}
use text.Mathlib.TextEquality.{eq_iff}
use kraken_data_recorder.Base.{
  String, List, [], ◌∷◌, Option, none, some, if◌then◌else◌, ◌≡◌, refl, sym, arith, All, Bool, true,
  false,
}

module _ {V : Type 0} where
  unfoldable pub lookup : String → List (String × V) → Option V
  lookup key [] = none
  lookup key ((k, v) ∷ m) = if k == key then some v else lookup key m

  -- The entry of a key gets a value; a key that has none gets an entry.
  unfoldable pub store : String → V → List (String × V) → List (String × V)
  store key value [] = (key, value) ∷ []
  store key value ((k, v) ∷ m) = if k == key then (k, value) ∷ m else (k, v) ∷ store key value m

  pub lookup-store :
      (key q : String) (value : V) (m : List (String × V))
      → lookup q (store key value m) ≡ (if key == q then some value else lookup q m)
  unfolding lookup store
  lookup-store key q value [] = refl
  lookup-store key q value ((k, v) ∷ m) =
      ground (arith, eq_iff key q, eq_iff k q, eq_iff k key, lookup-store key q value m)

  chosen :
      (P : V → Type 0) (b : Bool) {o : Option V} {v w : V}
      → P w
      → (o ≡ some v → P v)
      → (if b then some w else o) ≡ some v
      → P v
  chosen P true {v = v} {w = w} h later e = let value : w ≡ v = cc in rw (sym value) h
  chosen P false h later e = later e

  -- What holds of every value holds of what is found, and is kept by `store`.
  pub All-lookup :
      (P : V → Type 0) (key : String) (m : List (String × V)) (v : V)
      → All (λ e. P e.1) m
      → lookup key m ≡ some v
      → P v
  unfolding lookup
  All-lookup P key [] v h e = cc
  All-lookup P key ((k, w) ∷ m) v h e = chosen P (k == key) h.0 (All-lookup P key m v h.1) e

  pub All-store :
      (P : V → Type 0) (key : String) (value : V) (m : List (String × V))
      → P value
      → All (λ e. P e.1) m
      → All (λ e. P e.1) (store key value m)
  unfolding store
  All-store P key value [] p h = (p, tt)
  All-store P key value ((k, v) ∷ m) p h = ground (arith, All-store P key value m p h.1)
