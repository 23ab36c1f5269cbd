-- ===== src/Sides/Order.antt =====
-- The comparisons of the two sides are what `std::map` asks for.
use kraken_data_recorder.Base.{arith}
use kraken_data_recorder.Decimal.Order.{IsDecimal, lt-rank, gt-rank}
use kraken_data_recorder.OrderedMap.Order.{IsStrictWeak}
use kraken_data_recorder.Sides.{bid_less, ask_less}

-- `std::less` on prices is a strict weak order on the decimals that have only digits behind the
-- point, and no more than the array has room for.
pub ask_order : IsStrictWeak IsDecimal ask_less
ask_order = record {
  irrefl = λ a pa. ground (arith, lt-rank a a pa pa);
  trans = λ a b c pa pb pc. ground (arith, lt-rank a b pa pb, lt-rank b c pb pc, lt-rank a c pa pc);
  cotrans =
      λ a b c pa pb pc. ground (arith, lt-rank a b pa pb, lt-rank b c pb pc, lt-rank a c pa pc);
}

-- `std::greater` on prices is one too, on the same decimals.
pub bid_order : IsStrictWeak IsDecimal bid_less
bid_order = record {
  irrefl = λ a pa. ground (arith, gt-rank a a pa pa);
  trans = λ a b c pa pb pc. ground (arith, gt-rank a b pa pb, gt-rank b c pb pc, gt-rank a c pa pc);
  cotrans =
      λ a b c pa pb pc. ground (arith, gt-rank a b pa pb, gt-rank b c pb pc, gt-rank a c pa pc);
}
