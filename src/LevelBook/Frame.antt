-- ===== src/LevelBook/Frame.antt =====
-- What a message changes, and what it leaves alone.
use text.Mathlib.Text.{◌==◌ as str_eq}
use text.Mathlib.TextEquality.{eq_iff}
use kraken_data_recorder.Base.{
  ℕ, String, false, [], Option, none, some, if◌then◌else◌, err, unknown_symbol, ◌≡◌, sym, ap, ◌⊎◌,
  inl, inr, arith, Option-cases, Bool-cases, refl, not, ◌||◌, ◌==◌,
}
use kraken_data_recorder.Crc.{Crc}
use kraken_data_recorder.Messages.{Pair, Book, c_snapshot, c_update}
use kraken_data_recorder.Sides.{Sides, Side, accept_snapshot, accept_update}
use kraken_data_recorder.UnorderedMap.{lookup, store, lookup-store}
use kraken_data_recorder.LevelBook.{
  LevelBook, accept_pair, accept_found, accept_book, fresh_sides, rebuilt_sides,
}

-- A book message acts on the sides of its own symbol alone, as `accept_found` does; for a symbol
-- that is not known it changes nothing and throws.
pub accept_book_frame :
    (crc : Crc) (b : LevelBook) (book : Book) (q : String)
    → ((lookup book.symbol b.sides ≡ none)
        × (accept_book crc b book ≡ (b, err (unknown_symbol book.symbol))))
      ⊎ ((sides : Sides) × (lookup book.symbol b.sides ≡ some sides)
          × ((accept_book crc b book).1 ≡ (accept_found crc sides book).1)
          × (lookup q (accept_book crc b book).0.sides ≡ (
              if str_eq book.symbol q
              then some (accept_found crc sides book).0
              else lookup q b.sides)))
unfolding accept_book
accept_book_frame crc b book q = elim (Option-cases (lookup book.symbol b.sides)) [
  | inl e ↦ inl (e, rw (e, accept_book))
  | inr (sides, e) ↦ inr (
    sides,
    e,
    rw (e, accept_book),
    rw (e, accept_book) (lookup-store book.symbol q (accept_found crc sides book).0 b.sides),
  )
]

-- The levels that a symbol has, none if it is not known.
abbrev pub levels : Option Sides → Side × Side
levels none = ([], [])
levels (some sides) = (sides.bids, sides.asks)

abbrev pub precisions : Option Sides → Option (ℕ × ℕ)
precisions none = none
precisions (some sides) = some (sides.price_precision, sides.qty_precision)

-- A pair message gives its symbol the precisions of the pair, new or not, and touches neither the
-- levels of any symbol nor the precisions of another.
pub accept_pair_frame :
    (b : LevelBook) (pair : Pair) (q : String)
    → (precisions (lookup q (accept_pair b pair).sides) ≡ (
        if str_eq pair.symbol q
        then some (pair.price_precision, pair.qty_precision)
        else precisions (lookup q b.sides)))
      × (levels (lookup q (accept_pair b pair).sides) ≡ levels (lookup q b.sides))
unfolding accept_pair
accept_pair_frame b pair q = elim (Option-cases (lookup pair.symbol b.sides)) [
  | inl e ↦ let known = stored (fresh_sides b pair) (sym (ap levels e)) in rw (e, accept_pair) known
  | inr (s, e) ↦
      let known = stored (rebuilt_sides b pair s) (sym (ap levels e)) in
      let agreed = unchanged s e in
      rw (e, accept_pair)
        elim (Bool-cases (
          not (pair.price_precision == s.price_precision)
          || not (pair.qty_precision == s.qty_precision))) [
            | inl t ↦ rw (t) known
            | inr t ↦ rw (t) (agreed t)
          ]
]
  where
    stored :
        (s : Sides)
        → levels (some s) ≡ levels (lookup pair.symbol b.sides)
        → (precisions (lookup q (store pair.symbol s b.sides)) ≡ (
            if str_eq pair.symbol q
            then some (s.price_precision, s.qty_precision)
            else precisions (lookup q b.sides)))
          × (levels (lookup q (store pair.symbol s b.sides)) ≡ levels (lookup q b.sides))
    stored s same = ground (arith, lookup-store pair.symbol q s b.sides, eq_iff pair.symbol q)

    unchanged :
        (s : Sides)
        → lookup pair.symbol b.sides ≡ some s
        → (not (pair.price_precision == s.price_precision)
            || not (pair.qty_precision == s.qty_precision))
          ≡ false
        → (precisions (lookup q b.sides) ≡ (
            if str_eq pair.symbol q
            then some (pair.price_precision, pair.qty_precision)
            else precisions (lookup q b.sides)))
          × (levels (lookup q b.sides) ≡ levels (lookup q b.sides))
    unchanged s e t = ground (arith, eq_iff pair.symbol q)

module _ (crc : Crc) where
  -- The sides keep their precisions.
  pub accept_found-precisions :
      (s : Sides) (book : Book)
      → precisions (some (accept_found crc s book).0) ≡ precisions (some s)
  unfolding accept_found accept_snapshot accept_update
  accept_found-precisions s book = elim (Bool-cases (str_eq book.header.kind c_snapshot)) [
    | inl e ↦ rw e refl
    | inr e ↦ elim (Bool-cases (str_eq book.header.kind c_update)) [
      | inl f ↦ rw (e, f) refl
      | inr f ↦ rw (e, f) refl
    ]
  ]

  pub accept_book-found :
      (b : LevelBook) (book : Book) (sides : Sides)
      → lookup book.symbol b.sides ≡ some sides
      → (accept_book crc b book).1 ≡ (accept_found crc sides book).1
  unfolding accept_book
  accept_book-found b book sides e = rw (e, accept_book) refl
