-- ===== src/Sides/Update.antt =====
-- `apply_update` against a map from prices to quantities, and what it keeps of a side.
use kraken_data_recorder.Base.{
  Bool, List, [], ◌∷◌, Option, some, none, if◌then◌else◌, ◌≡◌, inl, inr, refl, ◌∙◌, arith, All,
  Option-cases, Bool-cases,
}
use kraken_data_recorder.Decimal
use kraken_data_recorder.Decimal.{Decimal}
use kraken_data_recorder.Decimal.Order.{IsDecimal}
use kraken_data_recorder.Messages.{Quote}
use kraken_data_recorder.OrderedMap.{equivalent, find}
use kraken_data_recorder.OrderedMap.Order.{
  IsStrictWeak, IsSorted, insert-IsSorted, erase-IsSorted, assign-IsSorted,
}
use kraken_data_recorder.OrderedMap.Lookup.{find-insert, find-erase, find-assign}
use kraken_data_recorder.Sides.{Side, c_zero, apply_quote, apply_quotes}

-- The prices of a list of quotes are decimals.
abbrev pub Priced : List Quote → Type 0
Priced = All (λ quote. IsDecimal quote.0)

-- A book side as a map from prices to quantities.
abbrev pub Levels : Type 0
Levels = Decimal → Option Decimal

-- What one quote does to the map: a price that has a level gets the new quantity, or loses its
-- level if that is zero; a price that has none gets one.
abbrev pub quoted : Option Decimal → Decimal → Option Decimal
quoted none qty = some qty
quoted (some _) qty = if Decimal.eq qty c_zero then none else some qty

module _ (less : Decimal → Decimal → Bool) where
  abbrev pub set_level : Levels → Quote → Levels
  set_level levels (price, qty) p =
      if equivalent less price p then quoted (levels price) qty else levels p

  abbrev pub set_levels : Levels → List Quote → Levels
  set_levels levels [] = levels
  set_levels levels (quote ∷ quotes) = set_levels (set_level levels quote) quotes

  set_levels_congr :
      (f g : Levels) (quotes : List Quote) (p : Decimal)
      → Priced quotes
      → IsDecimal p
      → ((q : Decimal) → IsDecimal q → f q ≡ g q)
      → set_levels f quotes p ≡ set_levels g quotes p
  set_levels_congr f g [] p h hp e = e p hp
  set_levels_congr f g ((price, qty) ∷ quotes) p h hp e =
      set_levels_congr (set_level f (price, qty)) (set_level g (price, qty)) quotes p h.1 hp
        λ q hq. ground (arith, e price h.0, e q hq)

module _ {less : Decimal → Decimal → Bool} (o : IsStrictWeak IsDecimal less) where
  find-apply_quote :
      (side : Side) (price qty p : Decimal)
      → IsDecimal price
      → IsDecimal p
      → IsSorted IsDecimal less side
      → find less p (apply_quote less side (price, qty))
        ≡ set_level less (λ q. find less q side) (price, qty) p
  unfolding apply_quote
  find-apply_quote side price qty p hprice hp s = elim (Option-cases (find less price side)) [
    | inl absent ↦ rw (absent, apply_quote) (find-insert o price p qty side hprice hp s absent)
    | inr (old, present) ↦ elim (Bool-cases (Decimal.eq qty c_zero)) [
      | inl gone ↦ rw (present, gone, apply_quote) (find-erase o price p side hprice hp s)
      | inr kept ↦
          rw (present, kept, apply_quote) (find-assign o price p qty old side hprice hp s present)
    ]
  ]

  pub apply_quote-IsSorted :
      (side : Side) (price qty : Decimal)
      → IsDecimal price
      → IsSorted IsDecimal less side
      → IsSorted IsDecimal less (apply_quote less side (price, qty))
  unfolding apply_quote
  apply_quote-IsSorted side price qty hprice s = ground (
    arith,
    insert-IsSorted o price qty side hprice s,
    erase-IsSorted o price side s,
    assign-IsSorted o price qty side s,
  )

  pub apply_quotes-IsSorted :
      (quotes : List Quote) (side : Side)
      → Priced quotes
      → IsSorted IsDecimal less side
      → IsSorted IsDecimal less (apply_quotes less side quotes)
  unfolding apply_quotes
  apply_quotes-IsSorted [] side h s = s
  apply_quotes-IsSorted ((price, qty) ∷ quotes) side h s =
      apply_quotes-IsSorted quotes (apply_quote less side (price, qty)) h.1
        (apply_quote-IsSorted side price qty h.0 s)

  -- The loop of `apply_update` on a sorted side does to what is found at each price what the
  -- quotes do, one after the other, to a map from prices to quantities.
  pub find-apply_quotes :
      (quotes : List Quote) (side : Side) (p : Decimal)
      → Priced quotes
      → IsDecimal p
      → IsSorted IsDecimal less side
      → find less p (apply_quotes less side quotes)
        ≡ set_levels less (λ q. find less q side) quotes p
  unfolding apply_quotes
  find-apply_quotes [] side p h hp s = refl
  find-apply_quotes ((price, qty) ∷ quotes) side p h hp s =
      find-apply_quotes quotes (apply_quote less side (price, qty)) p h.1 hp
        (apply_quote-IsSorted side price qty h.0 s)
      ∙ set_levels_congr less (λ q. find less q (apply_quote less side (price, qty)))
          (set_level less (λ q. find less q side) (price, qty)) quotes p h.1 hp
          (λ q hq. find-apply_quote side price qty q h.0 hq s)
