-- ===== src/LevelBook.antt =====
-- `level_book_t` of include/level_book.hpp and src/level_book.cpp: the sides of every symbol.
pub mod Frame
pub mod Verified
pub mod Sorted
pub mod Text
pub mod Alike
use text.Mathlib.Text.{◌==◌ as str_eq}
use kraken_data_recorder.Base.{
  ℕ, String, Bool, not, ◌||◌, List, [], Option, none, some, if◌then◌else◌, ◌==◌, Result, ok, err,
  unknown_symbol, bogus_symbol, bogus_book_type,
}
use kraken_data_recorder.Crc.{Crc}
use kraken_data_recorder.Messages.{Pair, Book, c_snapshot, c_update}
use kraken_data_recorder.Sides
use kraken_data_recorder.Sides.{Sides}
use kraken_data_recorder.UnorderedMap.{lookup, store}

pub record LevelBook : Type 0 where
  pub book_depth : ℕ
  pub sides : List (String × Sides)

abbrev pub init : ℕ → LevelBook
init book_depth = record { book_depth = book_depth; sides = [] }

-- `sides(symbol)`
pub sides_of : LevelBook → String → Result Sides
sides_of b symbol = elim (lookup symbol b.sides) [
  | none ↦ err (unknown_symbol symbol)
  | some sides ↦ ok sides
]

abbrev pub fresh_sides : LevelBook → Pair → Sides
fresh_sides b pair = record {
  book_depth = b.book_depth;
  price_precision = pair.price_precision;
  qty_precision = pair.qty_precision;
  bids = [];
  asks = [];
}

-- The sides with new precisions, and the levels of the existing ones.
abbrev pub rebuilt_sides : LevelBook → Pair → Sides → Sides
rebuilt_sides b pair existing = record {
  book_depth = b.book_depth;
  price_precision = pair.price_precision;
  qty_precision = pair.qty_precision;
  bids = existing.bids;
  asks = existing.asks;
}

-- `accept(pair)`
unfoldable pub accept_pair : LevelBook → Pair → LevelBook
accept_pair b pair = elim (lookup pair.symbol b.sides) [
  | none ↦ record b { sides = store pair.symbol (fresh_sides b pair) b.sides }
  | some existing ↦
      if not (pair.price_precision == existing.price_precision)
        || not (pair.qty_precision == existing.qty_precision)
      then record b { sides = store pair.symbol (rebuilt_sides b pair existing) b.sides }
      else b
]

module _ (crc : Crc) where
  -- What `accept(book)` does to the sides it has found: `sides` is a reference into the map.
  unfoldable pub accept_found : Sides → Book → Sides × Result (Unit {0})
  accept_found sides book =
      if str_eq book.header.kind c_snapshot
      then Sides.accept_snapshot crc sides book
      else if str_eq book.header.kind c_update
      then Sides.accept_update crc sides book
      else (sides, err (bogus_book_type book.header.kind))

  -- `accept(book)`
  unfoldable pub accept_book : LevelBook → Book → LevelBook × Result (Unit {0})
  unfolding accept_found
  accept_book b book = elim (lookup book.symbol b.sides) [
    | none ↦ (b, err (unknown_symbol book.symbol))
    | some sides ↦
        let (sides', result) = accept_found sides book in
        (record b { sides = store book.symbol sides' b.sides }, result)
  ]

  pub crc32 : LevelBook → String → Result ℕ
  crc32 b symbol = elim (lookup symbol b.sides) [
    | none ↦ err (bogus_symbol symbol)
    | some sides ↦ Sides.crc32 crc sides
  ]
