-- ===== src/Sides/Depth.antt =====
-- The levels that `apply_update` keeps are the best ones, and no more than the depth of the book.
use kraken_data_recorder.Base.{
  ℕ, zero, suc, ◌≤◌, Bool, List, [], ◌∷◌, ltb, length, take, drop, ◌≡◌, inl, inr, refl, sym, arith,
  All, Bool-cases, length-take-le, take_of_length-le,
}
use kraken_data_recorder.Decimal.{Decimal}
use kraken_data_recorder.Decimal.Order.{IsDecimal}
use kraken_data_recorder.Messages.{Quote}
use kraken_data_recorder.OrderedMap.Order.{IsStrictWeak, Before, IsSorted}
use kraken_data_recorder.Sides.{Side, apply_quotes, truncate, apply_update}
use kraken_data_recorder.Sides.Update.{Priced, apply_quotes-IsSorted}

pub truncate-take : (depth : ℕ) (side : Side) → truncate depth side ≡ take depth side
unfolding truncate
truncate-take depth side = elim (Bool-cases (ltb depth (length side))) [
  | inl more ↦ rw more
  | inr less ↦ rw less (sym (take_of_length-le depth side (ground arith)))
]

module _ (less : Decimal → Decimal → Bool) where
  -- Every level of one side is better than every level of the other.
  abbrev pub AllBefore : Side → Side → Type 0
  AllBefore better worse = All (λ level. Before IsDecimal less level.0 worse) better

module _ {less : Decimal → Decimal → Bool} (o : IsStrictWeak IsDecimal less) where
  Before-take :
      (k : Decimal) (n : ℕ) (side : Side)
      → Before IsDecimal less k side
      → Before IsDecimal less k (take n side)
  Before-take k zero side b = tt
  Before-take k (suc n) [] b = tt
  Before-take k (suc n) ((j, v) ∷ side) b = (b.0, Before-take k n side b.1)

  Before-drop :
      (k : Decimal) (n : ℕ) (side : Side)
      → Before IsDecimal less k side
      → Before IsDecimal less k (drop n side)
  Before-drop k zero side b = b
  Before-drop k (suc n) [] b = tt
  Before-drop k (suc n) ((j, v) ∷ side) b = Before-drop k n side b.1

  pub take-IsSorted :
      (n : ℕ) (side : Side) → IsSorted IsDecimal less side → IsSorted IsDecimal less (take n side)
  take-IsSorted zero side s = tt
  take-IsSorted (suc n) [] s = tt
  take-IsSorted (suc n) ((k, v) ∷ side) s =
      (s.0, Before-take k n side s.1, take-IsSorted n side s.2)

  take_before_drop :
      (n : ℕ) (side : Side)
      → IsSorted IsDecimal less side
      → AllBefore less (take n side) (drop n side)
  take_before_drop zero side s = tt
  take_before_drop (suc n) [] s = tt
  take_before_drop (suc n) ((k, v) ∷ side) s =
      (Before-drop k n side s.1, take_before_drop n side s.2)

  -- `apply_update` on a sorted side gives a sorted side of at most `depth` levels. These are the
  -- first of those that the quotes alone lead to, and each is better than each that is cut off.
  pub apply_update_best :
      (depth : ℕ) (quotes : List Quote) (side : Side)
      → Priced quotes
      → IsSorted IsDecimal less side
      → IsSorted IsDecimal less (apply_update less depth quotes side)
        × (length (apply_update less depth quotes side) ≤ depth)
        × (apply_update less depth quotes side ≡ take depth (apply_quotes less side quotes))
        × AllBefore less
            (apply_update less depth quotes side)
            (drop depth (apply_quotes less side quotes))
  unfolding apply_update
  apply_update_best depth quotes side h s =
      let full = apply_quotes less side quotes in
      let sorted = apply_quotes-IsSorted o quotes side h s in
      rw (truncate-take depth full) (
        take-IsSorted depth full sorted,
        length-take-le depth full,
        refl,
        take_before_drop depth full sorted,
      )
