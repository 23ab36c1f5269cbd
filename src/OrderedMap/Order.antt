-- ===== src/OrderedMap/Order.antt =====
-- The order of the entries, and that every operation keeps it.
use kraken_data_recorder.Base.{Bool, true, false, List, [], ◌∷◌, ◌≡◌, arith, All}
use kraken_data_recorder.OrderedMap.{insert, erase, assign, insert_all}

-- What a map asks of its comparison, on the keys that occur.
pub record IsStrictWeak {K : Type 0} (P : K → Type 0) (less : K → K → Bool) : Type 0 where
  pub irrefl : (a : K) → P a → less a a ≡ false
  pub trans : (a b c : K) → P a → P b → P c → less a b ≡ true → less b c ≡ true → less a c ≡ true
  pub cotrans : (a b c : K) → P a → P b → P c → less a c ≡ true → less a b ≡ false → less b c ≡ true

module _ {K V : Type 0} (P : K → Type 0) (less : K → K → Bool) where
  -- The key is less than every key of the map.
  abbrev pub Before : K → List (K × V) → Type 0
  Before k [] = Unit
  Before k ((j, v) ∷ m) = (less k j ≡ true) × Before k m

  -- The keys are admissible and rise strictly.
  abbrev pub IsSorted : List (K × V) → Type 0
  IsSorted [] = Unit
  IsSorted ((k, v) ∷ m) = P k × Before k m × IsSorted m

module _ {K V : Type 0} {P : K → Type 0} {less : K → K → Bool} (o : IsStrictWeak P less) where
  pub Before-trans :
      (a b : K) (m : List (K × V))
      → P a
      → P b
      → IsSorted P less m
      → less a b ≡ true
      → Before P less b m
      → Before P less a m
  Before-trans a b [] pa pb s h t = tt
  Before-trans a b ((k, v) ∷ m) pa pb s h t =
      (o.trans a b k pa pb s.0 h t.0, Before-trans a b m pa pb s.2 h t.1)

  Before-insert :
      (k key : K) (value : V) (m : List (K × V))
      → less k key ≡ true
      → Before P less k m
      → Before P less k (insert less (key, value) m)
  unfolding insert
  Before-insert k key value [] h t = (h, tt)
  Before-insert k key value ((j, v) ∷ m) h t = ground (arith, Before-insert k key value m h t.1)

  -- `insert` keeps the keys strictly rising.
  pub insert-IsSorted :
      (key : K) (value : V) (m : List (K × V))
      → P key
      → IsSorted P less m
      → IsSorted P less (insert less (key, value) m)
  unfolding insert
  insert-IsSorted key value [] p s = (p, tt, tt)
  insert-IsSorted key value ((k, v) ∷ m) p s = ground (
    arith,
    insert-IsSorted key value m p s.2,
    Before-insert k key value m,
    Before-trans key k m p s.0 s.2,
  )

  Before-erase :
      (k key : K) (m : List (K × V)) → Before P less k m → Before P less k (erase less key m)
  unfolding erase
  Before-erase k key [] t = tt
  Before-erase k key ((j, v) ∷ m) t = ground (arith, Before-erase k key m t.1)

  pub erase-IsSorted :
      (key : K) (m : List (K × V)) → IsSorted P less m → IsSorted P less (erase less key m)
  unfolding erase
  erase-IsSorted key [] s = tt
  erase-IsSorted key ((k, v) ∷ m) s =
      ground (arith, erase-IsSorted key m s.2, Before-erase k key m s.1)

  Before-assign :
      (k key : K) (value : V) (m : List (K × V))
      → Before P less k m
      → Before P less k (assign less key value m)
  unfolding assign
  Before-assign k key value [] t = tt
  Before-assign k key value ((j, v) ∷ m) t = ground (arith, Before-assign k key value m t.1)

  pub assign-IsSorted :
      (key : K) (value : V) (m : List (K × V))
      → IsSorted P less m
      → IsSorted P less (assign less key value m)
  unfolding assign
  assign-IsSorted key value [] s = tt
  assign-IsSorted key value ((k, v) ∷ m) s =
      ground (arith, assign-IsSorted key value m s.2, Before-assign k key value m s.1)

  pub insert_all-IsSorted :
      (es m : List (K × V))
      → All (λ e. P e.0) es
      → IsSorted P less m
      → IsSorted P less (insert_all less es m)
  unfolding insert_all
  insert_all-IsSorted [] m p s = s
  insert_all-IsSorted ((k, v) ∷ es) m p s =
      insert_all-IsSorted es (insert less (k, v) m) p.1 (insert-IsSorted k v m p.0 s)
