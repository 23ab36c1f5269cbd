-- ===== src/LevelBook/Sorted.antt =====
-- The order of the sides of every symbol, along the messages of src/level_book.cpp.
use text.Mathlib.Text.{◌==◌ as str_eq}
use kraken_data_recorder.Base.{All, inl, inr, Bool-cases, Option-cases, not, ◌||◌, ◌==◌}
use kraken_data_recorder.Crc.{Crc}
use kraken_data_recorder.Messages.{Pair, Book, c_snapshot, c_update}
use kraken_data_recorder.Sides.{Sides}
use kraken_data_recorder.Sides.Sorted.{
  IsSortedSides, IsPriced, accept_update-IsSortedSides, accept_snapshot-IsSortedSides,
}
use kraken_data_recorder.UnorderedMap.{lookup, All-lookup, All-store}
use kraken_data_recorder.LevelBook.{
  LevelBook, accept_pair, accept_found, accept_book, fresh_sides, rebuilt_sides,
}

-- The sides of every symbol are sorted.
abbrev pub IsSortedBook : LevelBook → Type 0
IsSortedBook b = All (λ e. IsSortedSides e.1) b.sides

pub accept_pair-IsSortedBook :
    (b : LevelBook) (pair : Pair) → IsSortedBook b → IsSortedBook (accept_pair b pair)
unfolding accept_pair
accept_pair-IsSortedBook b pair h = elim (Option-cases (lookup pair.symbol b.sides)) [
  | inl e ↦
      rw (e, accept_pair)
        (All-store IsSortedSides pair.symbol (fresh_sides b pair) b.sides (tt, tt) h)
  | inr (s, e) ↦
      let known = All-lookup IsSortedSides pair.symbol b.sides s h e in
      let rebuilt = All-store IsSortedSides pair.symbol (rebuilt_sides b pair s) b.sides known h in
      rw (e, accept_pair)
        elim (Bool-cases (
          not (pair.price_precision == s.price_precision)
          || not (pair.qty_precision == s.qty_precision))) [ inl t ↦ rw t rebuilt | inr t ↦ rw t h ]
]

module _ (crc : Crc) where
  accept_found-IsSortedSides :
      (s : Sides) (book : Book)
      → IsPriced book
      → IsSortedSides s
      → IsSortedSides (accept_found crc s book).0
  unfolding accept_found
  accept_found-IsSortedSides s book p h = elim (Bool-cases (str_eq book.header.kind c_snapshot)) [
    | inl e ↦ rw e (accept_snapshot-IsSortedSides crc s book p)
    | inr e ↦ elim (Bool-cases (str_eq book.header.kind c_update)) [
      | inl f ↦ rw (e, f) (accept_update-IsSortedSides crc s book p h)
      | inr f ↦ rw (e, f) h
    ]
  ]

  pub accept_book-IsSortedBook :
      (b : LevelBook) (book : Book)
      → IsPriced book
      → IsSortedBook b
      → IsSortedBook (accept_book crc b book).0
  unfolding accept_book
  accept_book-IsSortedBook b book p h = elim (Option-cases (lookup book.symbol b.sides)) [
    | inl e ↦ rw (e, accept_book) h
    | inr (s, e) ↦
        rw (e, accept_book)
          (All-store IsSortedSides book.symbol (accept_found crc s book).0 b.sides
            (accept_found-IsSortedSides s book p
              (All-lookup IsSortedSides book.symbol b.sides s h e))
            h)
  ]
