-- ===== src/AlikeTests.antt =====
-- Instances of the theorem on books that print alike.
use kraken_data_recorder.Base.{[], ◌∷◌, refl, sym, ◌∙◌, arith}
use kraken_data_recorder.Decimal.{Decimal, own}
use kraken_data_recorder.Decimal.Digits.{zeros}
use kraken_data_recorder.Decimal.Layout.{Layout, pointed}
use kraken_data_recorder.Decimal.Print.{str_to-text_at}
use kraken_data_recorder.LevelBook.{accept_found}
use kraken_data_recorder.LevelBook.Alike.{OutcomesAlike, accept_found-OutcomesAlike}
use kraken_data_recorder.Messages.{Book}
use kraken_data_recorder.Sides.{Sides}
use kraken_data_recorder.Sides.Checksum.{IsStored}
use kraken_data_recorder.Sides.Printed.{PrintAlike}
use kraken_data_recorder.TestData.{good_book, toy_crc}

-- "1.5" and "1.50"
abbrev short : Decimal
short = record { chars = b'1' ∷ b'.' ∷ b'5' ∷ zeros 45; view = own 3 }

abbrev long : Decimal
long = record { chars = b'1' ∷ b'.' ∷ b'5' ∷ b'0' ∷ zeros 44; view = own 4 }

short-Layout : Layout short (b'1' ∷ []) (b'5' ∷ [])
short-Layout = pointed 45 (refl, tt) (refl, tt) refl refl

long-Layout : Layout long (b'1' ∷ []) (b'5' ∷ b'0' ∷ [])
long-Layout = pointed 44 (refl, tt) (refl, (refl, tt)) refl refl

short-IsStored : IsStored 2 short
short-IsStored = record {
  int = b'1' ∷ [];
  frac = b'5' ∷ [];
  layout = short-Layout;
  is_own = (3, refl);
  has_room = omega arith;
}

long-IsStored : IsStored 2 long
long-IsStored = record {
  int = b'1' ∷ [];
  frac = b'5' ∷ b'0' ∷ [];
  layout = long-Layout;
  is_own = (4, refl);
  has_room = omega arith;
}

short-PrintAlike : PrintAlike 2 short long
short-PrintAlike = record {
  left = record {
    int = b'1' ∷ [];
    frac = b'5' ∷ [];
    layout = short-Layout;
    small = omega arith;
    short = omega arith;
  };
  right = record {
    int = b'1' ∷ [];
    frac = b'5' ∷ b'0' ∷ [];
    layout = long-Layout;
    small = omega arith;
    short = omega arith;
  };
  text = str_to-text_at 2 short-Layout ∙ sym (str_to-text_at 2 long-Layout);
}

abbrev sides : Sides
sides = record {
  book_depth = 10;
  price_precision = 2;
  qty_precision = 2;
  bids = [];
  asks = (short, short) ∷ [];
}

abbrev long_sides : Sides
long_sides = record sides { asks = (long, long) ∷ [] }

abbrev book : Book
book = record good_book { bids = (short, short) ∷ []; asks = (short, short) ∷ [] }

abbrev long_book : Book
long_book = record good_book { bids = (long, long) ∷ []; asks = (long, long) ∷ [] }

accept_found-OutcomesAlike_example :
    OutcomesAlike (accept_found toy_crc sides book) (accept_found toy_crc long_sides long_book)
accept_found-OutcomesAlike_example =
    accept_found-OutcomesAlike toy_crc sides long_sides book long_book (omega arith)
      (record {
        depth = refl;
        price_precision = refl;
        qty_precision = refl;
        bids = tt;
        asks = (short-PrintAlike, short-PrintAlike, tt);
      })
      (record {
        kind = refl;
        symbol = refl;
        crc32 = refl;
        bids = (short-PrintAlike, short-PrintAlike, tt);
        asks = (short-PrintAlike, short-PrintAlike, tt);
      })
      (((short-IsStored, short-IsStored), tt), tt) (((long-IsStored, long-IsStored), tt), tt)
      (((short-IsStored, short-IsStored), tt), ((short-IsStored, short-IsStored), tt))
      (((long-IsStored, long-IsStored), tt), ((long-IsStored, long-IsStored), tt))
