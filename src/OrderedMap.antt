-- ===== src/OrderedMap.antt =====
-- `std::map` with a comparison function, as include/sides.hpp uses it: the entries in the order of
-- their keys. Two keys are the same where neither is less than the other.
pub mod Order
pub mod Lookup
pub mod Alike
use kraken_data_recorder.Base.{
  Bool, true, false, not, ◌&&◌, List, [], ◌∷◌, Option, none, some, if◌then◌else◌,
}

abbrev pub equivalent : {K : Type 0} → (K → K → Bool) → K → K → Bool
equivalent less a b = not (less a b) && not (less b a)

module _ {K V : Type 0} (less : K → K → Bool) where
  unfoldable pub find : K → List (K × V) → Option V
  find key [] = none
  find key ((k, v) ∷ m) = if equivalent less k key then some v else find key m

  -- `insert` leaves an entry with the same key as it is.
  unfoldable pub insert : K × V → List (K × V) → List (K × V)
  insert (key, value) [] = (key, value) ∷ []
  insert (key, value) ((k, v) ∷ m) =
      if less key k
      then (key, value) ∷ (k, v) ∷ m
      else if less k key
      then (k, v) ∷ insert (key, value) m
      else (k, v) ∷ m

  -- `erase` of the entry that `find` has found.
  unfoldable pub erase : K → List (K × V) → List (K × V)
  erase key [] = []
  erase key ((k, v) ∷ m) = if equivalent less k key then m else (k, v) ∷ erase key m

  -- `it->second = value` for the entry that `find` has found.
  unfoldable pub assign : K → V → List (K × V) → List (K × V)
  assign key value [] = []
  assign key value ((k, v) ∷ m) =
      if equivalent less k key then (k, value) ∷ m else (k, v) ∷ assign key value m

  -- `insert` of a range.
  unfoldable pub insert_all : List (K × V) → List (K × V) → List (K × V)
  insert_all [] m = m
  insert_all (e ∷ es) m = insert_all es (insert e m)
