-- ===== src/Tests.antt =====
-- Instances of the theorems, at small data.
use Prim.Native.Char.{code}
use kraken_data_recorder.Base.{
  ℕ, pos, String, List, [], ◌∷◌, ◌++◌, ◌%◌, ◌+◌, ◌*◌, ◌^◌, replicate, length, take, drop, ok, err,
  out_of_bounds, invalid_state, ◌≤◌, ◌≡◌, refl, inr, arith, compare,
}
use kraken_data_recorder.Crc.{Crc}
use kraken_data_recorder.Decimal
use kraken_data_recorder.Decimal.{Bytes, Decimal, own, static_zero, default, c_max_num_chars}
use kraken_data_recorder.Decimal.Checksum.{process-strip_zeros}
use kraken_data_recorder.Decimal.Faults.{
  str_view-static_zero, from_str-wrapped_fraction, from_str-whole_number, str_to-copy_zero,
}
use kraken_data_recorder.Decimal.Digits.{Digits}
use kraken_data_recorder.Decimal.Layout.{Layout, pointed}
use kraken_data_recorder.Decimal.Order.{IsDecimal, Layout-IsDecimal, three_way-number}
use kraken_data_recorder.Decimal.Print.{str_to-text_at}
use kraken_data_recorder.Decimal.RoundTrip.{from_str-str_to}
use kraken_data_recorder.Messages.{Book, Quote}
use kraken_data_recorder.Sides
use kraken_data_recorder.Sides.{Sides, Side}
use kraken_data_recorder.Sides.Checksum.{IsStored, IsStoredBook, verdict}
use kraken_data_recorder.Sides.Depth.{apply_update_best, AllBefore}
use kraken_data_recorder.Sides.Order.{ask_order}
use kraken_data_recorder.Sides.Stored.{accept_update-verdict, accept_snapshot-verdict}
use kraken_data_recorder.Sides.Update.{find-apply_quotes, set_levels}
use kraken_data_recorder.OrderedMap.{find}
use kraken_data_recorder.OrderedMap.Order.{IsSorted}

abbrev codes : String → Bytes
codes String.[] = []
codes (String.◌∷◌ c s) = code c ∷ codes s

-- A decimal with a view of its own array.
abbrev decimal : Bytes → Decimal
decimal text = record { chars = text ++ replicate 44 b'0'; view = own (length text) }

abbrev dear : Decimal
dear = decimal (codes "12.5")

abbrev cheap : Decimal
cheap = decimal (codes "11.9")

dear-Layout : Layout dear (codes "12") (codes "5")
dear-Layout = pointed 44 (refl, (refl, tt)) (refl, tt) refl refl

cheap-Layout : Layout cheap (codes "11") (codes "9")
cheap-Layout = pointed 44 (refl, (refl, tt)) (refl, tt) refl refl

dear-IsDecimal : IsDecimal dear
dear-IsDecimal = Layout-IsDecimal dear-Layout (omega arith)

cheap-IsDecimal : IsDecimal cheap
cheap-IsDecimal = Layout-IsDecimal cheap-Layout (omega arith)

dear-IsStored : IsStored 2 dear
dear-IsStored = record {
  int = codes "12";
  frac = codes "5";
  layout = dear-Layout;
  is_own = (4, refl);
  has_room = omega arith;
}

cheap-IsStored : IsStored 2 cheap
cheap-IsStored = record {
  int = codes "11";
  frac = codes "9";
  layout = cheap-Layout;
  is_own = (4, refl);
  has_room = omega arith;
}

-- A checksum that is no CRC, but depends on every byte and on their order.
abbrev toy_crc : Crc
toy_crc = record {
  Register = ℕ;
  initial = 7;
  process_byte = λ register byte. (register * 31 + byte) % 2 ^ 32;
  checksum = λ register. register;
}

abbrev book_of : String → List Quote → List Quote → ℕ → Book
book_of kind asks bids crc32 = record {
  header = record { recv_tm = pos 0; channel = "book"; kind = kind };
  asks = asks;
  bids = bids;
  crc32 = crc32;
  symbol = "BTC/USD";
  timestamp = pos 0;
}

abbrev sides : Sides
sides = record {
  book_depth = 10;
  price_precision = 2;
  qty_precision = 2;
  bids = (cheap, dear) ∷ [];
  asks = (dear, cheap) ∷ [];
}

sides_stored : IsStoredBook sides
sides_stored = (((dear-IsStored, cheap-IsStored), tt), ((cheap-IsStored, dear-IsStored), tt))

abbrev update : Book
update = book_of "update" ((cheap, cheap) ∷ []) [] 99

from_str-str_to_example :
    (d : Decimal) × (Decimal.from_str (codes " 12.50,") ≡ ok d)
    × (Decimal.str_to d 3 ≡ codes "12.500")
    × (Decimal.str_to (Decimal.copy d) 3 ≡ codes "12.500")
from_str-str_to_example =
    from_str-str_to 3 (codes " ") (codes "12") (codes "50") (codes ",") (refl, tt)
      (inr (refl, refl, (refl, tt))) (refl, (refl, tt)) refl (omega arith) (omega arith)
      (omega arith)

process-strip_zeros_example :
    Decimal.process (λ (out : Bytes) byte. byte ∷ out) dear [] 2 ≡ ok (codes "0521")
process-strip_zeros_example =
    process-strip_zeros (λ (out : Bytes) byte. byte ∷ out) [] 2 dear-Layout (4, refl) (omega arith)

three_way-number_example : Decimal.three_way cheap dear ≡ compare 11900 12500
three_way-number_example =
    three_way-number 3 cheap-Layout dear-Layout (omega arith) (omega arith) (omega arith)
      (omega arith)

str_to-text_at_example : Decimal.str_to dear 3 ≡ codes "12.500"
str_to-text_at_example = str_to-text_at 3 dear-Layout

accept_update-verdict_example :
    IsStoredBook (Sides.accept_update toy_crc sides update).0
    × ((Sides.accept_update toy_crc sides update).1
        ≡ verdict toy_crc (Sides.accept_update toy_crc sides update).0 99)
accept_update-verdict_example =
    accept_update-verdict toy_crc sides update sides_stored
      (((cheap-IsStored, cheap-IsStored), tt), tt)

accept_snapshot-verdict_example :
    IsStoredBook (Sides.accept_snapshot toy_crc sides update).0
    × ((Sides.accept_snapshot toy_crc sides update).1
        ≡ verdict toy_crc (Sides.accept_snapshot toy_crc sides update).0 99)
accept_snapshot-verdict_example =
    accept_snapshot-verdict toy_crc sides update (((cheap-IsStored, cheap-IsStored), tt), tt)

find-apply_quotes_example :
    find Sides.ask_less cheap
      (Sides.apply_quotes Sides.ask_less ((dear, cheap) ∷ []) ((cheap, dear) ∷ []))
    ≡ set_levels Sides.ask_less
        (λ q. find Sides.ask_less q ((dear, cheap) ∷ []))
        ((cheap, dear) ∷ [])
        cheap
find-apply_quotes_example =
    find-apply_quotes ask_order ((cheap, dear) ∷ []) ((dear, cheap) ∷ []) cheap
      (cheap-IsDecimal, tt) cheap-IsDecimal (dear-IsDecimal, tt, tt)

apply_update_best_example :
    IsSorted IsDecimal Sides.ask_less
      (Sides.apply_update Sides.ask_less 1 ((cheap, dear) ∷ []) ((dear, cheap) ∷ []))
    × (length (Sides.apply_update Sides.ask_less 1 ((cheap, dear) ∷ []) ((dear, cheap) ∷ [])) ≤ 1)
    × (Sides.apply_update Sides.ask_less 1 ((cheap, dear) ∷ []) ((dear, cheap) ∷ [])
        ≡ take 1 (Sides.apply_quotes Sides.ask_less ((dear, cheap) ∷ []) ((cheap, dear) ∷ [])))
    × AllBefore Sides.ask_less
        (Sides.apply_update Sides.ask_less 1 ((cheap, dear) ∷ []) ((dear, cheap) ∷ []))
        (drop 1 (Sides.apply_quotes Sides.ask_less ((dear, cheap) ∷ []) ((cheap, dear) ∷ [])))
apply_update_best_example =
    apply_update_best ask_order 1 ((cheap, dear) ∷ []) ((dear, cheap) ∷ []) (cheap-IsDecimal, tt)
      (dear-IsDecimal, tt, tt)

str_view-static_zero_example : Decimal.str_view Sides.c_zero 2 ≡ err out_of_bounds
str_view-static_zero_example = str_view-static_zero Sides.c_zero 2 refl (omega arith)

-- 2 ^ 64 as a fraction
from_str-wrapped_fraction_example :
    (d : Decimal) × (Decimal.from_str (codes "0.18446744073709551616") ≡ ok d)
    × (Decimal.str d ≡ Decimal.c_zero_chars)
from_str-wrapped_fraction_example =
    from_str-wrapped_fraction (codes "18446744073709551616") digits refl (omega arith)
  where
    digits : Digits (codes "18446744073709551616")
    digits = ground arith

from_str-whole_number_example : Decimal.from_str (codes "42 ") ≡ err invalid_state
from_str-whole_number_example =
    from_str-whole_number b'4' (codes "2") [] b' ' refl refl (refl, tt) refl refl (omega arith)

str_to-copy_zero_example :
    (d : Decimal) × (Decimal.from_str (codes "0") ≡ ok d)
    × (Decimal.str_to d 2 ≡ codes "0.00")
    × (Decimal.str_to (Decimal.copy d) 2 ≡ codes "000.00")
str_to-copy_zero_example = str_to-copy_zero 0 2 (omega arith)
