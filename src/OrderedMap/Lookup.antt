-- ===== src/OrderedMap/Lookup.antt =====
-- `find` after each operation.
use kraken_data_recorder.Base.{
  Bool, true, List, [], ◌∷◌, none, some, if◌then◌else◌, ◌≡◌, refl, arith,
}
use kraken_data_recorder.OrderedMap.{equivalent, find, insert, erase, assign}
use kraken_data_recorder.OrderedMap.Order.{IsStrictWeak, Before, IsSorted}

module _ {K : Type 0} {P : K → Type 0} {less : K → K → Bool} (o : IsStrictWeak P less) where
  -- What is the same as the same key is the same.
  equivalent_trans :
      (a b c : K)
      → P a
      → P b
      → P c
      → equivalent less a b ≡ true
      → equivalent less b c ≡ true
      → equivalent less a c ≡ true
  equivalent_trans a b c pa pb pc h k =
      ground (arith, o.cotrans a b c pa pb pc, o.cotrans c b a pc pb pa)

  equivalent_symm : (a b : K) → equivalent less a b ≡ true → equivalent less b a ≡ true
  equivalent_symm a b h = ground arith

module _ {K V : Type 0} {P : K → Type 0} {less : K → K → Bool} (o : IsStrictWeak P less) where
  -- Nothing is found before the least key.
  find-Before :
      (k q : K) (m : List (K × V))
      → P k
      → P q
      → IsSorted P less m
      → Before P less k m
      → equivalent less k q ≡ true
      → find less q m ≡ none
  unfolding find
  find-Before k q [] pk pq s b e = refl
  find-Before k q ((j, v) ∷ m) pk pq s b e =
      ground (arith, find-Before k q m pk pq s.2 b.1 e, o.cotrans k q j pk pq s.0 b.0)

  -- After `erase` the key is gone, and all else is as it was.
  pub find-erase :
      (key q : K) (m : List (K × V))
      → P key
      → P q
      → IsSorted P less m
      → find less q (erase less key m) ≡ (if equivalent less key q then none else find less q m)
  unfolding find erase
  find-erase key q [] pk pq s = ground arith
  find-erase key q ((j, v) ∷ m) pk pq s = ground (
    arith,
    find-erase key q m pk pq s.2,
    equivalent_trans o j key q s.0 pk pq,
    equivalent_trans o j q key s.0 pq pk,
    equivalent_trans o key j q pk s.0 pq,
    find-Before j q m s.0 pq s.2 s.1,
  )

  -- `it->second = value` changes what is found under the key, if anything is, and nothing else.
  pub find-assign :
      (key q : K) (value old : V) (m : List (K × V))
      → P key
      → P q
      → IsSorted P less m
      → find less key m ≡ some old
      → find less q (assign less key value m)
        ≡ (if equivalent less key q then some value else find less q m)
  unfolding find assign
  find-assign key q value old [] pk pq s e = cc
  find-assign key q value old ((j, v) ∷ m) pk pq s e = ground (
    arith,
    find-assign key q value old m pk pq s.2,
    equivalent_trans o j key q s.0 pk pq,
    equivalent_trans o j q key s.0 pq pk,
    equivalent_trans o key j q pk s.0 pq,
  )

  -- `insert` adds the entry if its key is absent.
  pub find-insert :
      (key q : K) (value : V) (m : List (K × V))
      → P key
      → P q
      → IsSorted P less m
      → find less key m ≡ none
      → find less q (insert less (key, value) m)
        ≡ (if equivalent less key q then some value else find less q m)
  unfolding find insert
  find-insert key q value [] pk pq s e = ground arith
  find-insert key q value ((j, v) ∷ m) pk pq s e = ground (
    arith,
    find-insert key q value m pk pq s.2,
    equivalent_trans o j key q s.0 pk pq,
    equivalent_trans o j q key s.0 pq pk,
    equivalent_trans o key j q pk s.0 pq,
  )
