-- ===== src/Sides/Alike.antt =====
-- Two books whose levels print alike, and two messages whose quotes print alike.
use kraken_data_recorder.Base.{ℕ, ◌≤◌, Bool, List, [], ◌∷◌, Option, none, some, ltb, ◌≡◌, refl, ap}
use kraken_data_recorder.Decimal.{Decimal}
use kraken_data_recorder.Messages.{Quote}
use kraken_data_recorder.OrderedMap.Alike as Maps
use kraken_data_recorder.OrderedMap.Alike.{Found, if_related}
use kraken_data_recorder.Sides.{Side, apply_quote, apply_quotes, truncate, apply_update}
use kraken_data_recorder.Sides.Checksum.{side_digits}
use kraken_data_recorder.Sides.Printed.{PrintAlike, eq-PrintAlike, c_zero-PrintAlike}

-- Level by level, the prices and the quantities print alike.
abbrev pub QuotesAlike : ℕ → ℕ → List Quote → List Quote → Type 0
QuotesAlike pp qp = Maps.Alike (PrintAlike pp) (PrintAlike qp)

-- Which branch `apply_quote` takes.
chosen :
    {A : Type 0} (R : A → A → Type 0) (f f' : Option Decimal) {x x' y y' : A}
    → Found f f'
    → R x x'
    → R y y'
    → R (elim f [ some _ ↦ x | none ↦ y ]) (elim f' [ some _ ↦ x' | none ↦ y' ])
chosen R none none found hx hy = hy
chosen R none (some v) found hx hy = absurd found
chosen R (some v) none found hx hy = absurd found
chosen R (some v) (some v') found hx hy = hx

module _ (less : Decimal → Decimal → Bool) (pp qp : ℕ) (some_digit : 1 ≤ qp)
    (by_keys : (a a' b b' : Decimal)
      → PrintAlike pp a a'
      → PrintAlike pp b b'
      → less a b ≡ less a' b') where
  apply_quote-QuotesAlike :
      (side side' : Side) (price price' qty qty' : Decimal)
      → PrintAlike pp price price'
      → PrintAlike qp qty qty'
      → QuotesAlike pp qp side side'
      → QuotesAlike pp qp
          (apply_quote less side (price, qty))
          (apply_quote less side' (price', qty'))
  unfolding apply_quote
  apply_quote-QuotesAlike side side' price price' qty qty' hp hq h =
      chosen (QuotesAlike pp qp) _ _
        (Maps.find-Alike (PrintAlike pp) (PrintAlike qp) less by_keys side side' hp h)
        (if_related (QuotesAlike pp qp)
          (eq-PrintAlike qp qty qty' _ _ hq (c_zero-PrintAlike qp some_digit))
          (Maps.erase-Alike (PrintAlike pp) (PrintAlike qp) less by_keys side side' hp h)
          (Maps.assign-Alike (PrintAlike pp) (PrintAlike qp) less by_keys side side' hp hq h))
        (Maps.insert-Alike (PrintAlike pp) (PrintAlike qp) less by_keys side side' hp hq h)

  apply_quotes-QuotesAlike :
      (quotes quotes' : List Quote) (side side' : Side)
      → QuotesAlike pp qp quotes quotes'
      → QuotesAlike pp qp side side'
      → QuotesAlike pp qp (apply_quotes less side quotes) (apply_quotes less side' quotes')
  unfolding apply_quotes
  apply_quotes-QuotesAlike [] [] side side' hq h = h
  apply_quotes-QuotesAlike [] (quote ∷ quotes') side side' hq h = absurd hq
  apply_quotes-QuotesAlike (quote ∷ quotes) [] side side' hq h = absurd hq
  apply_quotes-QuotesAlike ((price, qty) ∷ quotes) ((price', qty') ∷ quotes') side side' hq h =
      apply_quotes-QuotesAlike quotes quotes' _ _ hq.2
        (apply_quote-QuotesAlike side side' price price' qty qty' hq.0 hq.1 h)

  pub apply_update-QuotesAlike :
      (depth : ℕ) (quotes quotes' : List Quote) (side side' : Side)
      → QuotesAlike pp qp quotes quotes'
      → QuotesAlike pp qp side side'
      → QuotesAlike pp qp
          (apply_update less depth quotes side)
          (apply_update less depth quotes' side')
  unfolding apply_update truncate
  apply_update-QuotesAlike depth quotes quotes' side side' hq h =
      let applied = apply_quotes-QuotesAlike quotes quotes' side side' hq h in
      if_related (QuotesAlike pp qp)
        (ap (ltb depth) (Maps.length-Alike (PrintAlike pp) (PrintAlike qp) _ _ applied))
        (Maps.take-Alike (PrintAlike pp) (PrintAlike qp) depth _ _ applied) applied

pub side_digits-QuotesAlike :
    (pp qp : ℕ) (side side' : Side)
    → QuotesAlike pp qp side side'
    → side_digits pp qp side ≡ side_digits pp qp side'
side_digits-QuotesAlike pp qp [] [] h = refl
side_digits-QuotesAlike pp qp [] (level ∷ side') h = absurd h
side_digits-QuotesAlike pp qp (level ∷ side) [] h = absurd h
side_digits-QuotesAlike pp qp ((price, qty) ∷ side) ((price', qty') ∷ side') h =
    rw (h.0.text, h.1.text, side_digits-QuotesAlike pp qp side side' h.2) refl
