-- ===== src/LevelBook/Alike.antt =====
-- A level book does the same to books that print alike.
use text.Mathlib.Text.{◌==◌ as str_eq}
use kraken_data_recorder.Base.{◌≤◌, Bool, true, false, if◌then◌else◌, Result, ◌≡◌, refl, sym}
use kraken_data_recorder.Crc.{Crc}
use kraken_data_recorder.LevelBook.{accept_found}
use kraken_data_recorder.Messages.{Book, c_snapshot, c_update}
use kraken_data_recorder.Sides.{Sides, accept_snapshot, accept_update}
use kraken_data_recorder.Sides.Checksum.{IsStoredBook}
use kraken_data_recorder.Sides.Stored.{IsStoredMessage}
use kraken_data_recorder.Sides.Twins.{
  SidesAlike, MessagesAlike, accept_update-SidesAlike, accept_snapshot-SidesAlike,
}

-- Sides that print alike, and the same result.
abbrev pub OutcomesAlike : Sides × Result (Unit {0}) → Sides × Result (Unit {0}) → Type 0
OutcomesAlike (s, result) (s', result') = SidesAlike s s' × (result ≡ result')

by_kind :
    (R : Sides × Result (Unit {0}) → Sides × Result (Unit {0}) → Type 0) (snapshot update : Bool)
    {a a' b b' c c' : Sides × Result (Unit {0})}
    → R a a'
    → R b b'
    → R c c'
    → R
        (if snapshot then a else if update then b else c)
        (if snapshot then a' else if update then b' else c')
by_kind R true update ha hb hc = ha
by_kind R false true ha hb hc = hb
by_kind R false false ha hb hc = hc

-- What a level book does to the sides of a symbol at a book of any type, where the levels and the
-- quotes are stored with room and all their digits stand in what they print, the precision of the
-- quantities at least 1: sides that print alike still do after books that do, and the call returns
-- at both or throws the same at both.
pub accept_found-OutcomesAlike :
    (crc : Crc) (s s' : Sides) (book book' : Book)
    → 1 ≤ s.qty_precision
    → SidesAlike s s'
    → MessagesAlike s.price_precision s.qty_precision book book'
    → IsStoredBook s
    → IsStoredBook s'
    → IsStoredMessage s book
    → IsStoredMessage s' book'
    → OutcomesAlike (accept_found crc s book) (accept_found crc s' book')
unfolding accept_found accept_snapshot accept_update
accept_found-OutcomesAlike crc s s' book book' digit alike messages kept kept' stored stored' =
    rw (sym messages.kind) (
      by_kind OutcomesAlike (str_eq book.header.kind c_snapshot) (str_eq book.header.kind c_update)
        (accept_snapshot-SidesAlike crc s s' book book' digit alike messages stored stored')
        (accept_update-SidesAlike crc s s' book book' digit alike messages stored stored' kept
          kept')
        (alike, refl))
