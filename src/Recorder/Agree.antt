-- ===== src/Recorder/Agree.antt =====
-- The precisions of the symbols in the reference data and in the level book of kdr_record.cpp.
use text.Mathlib.TextEquality.{eq_iff}
use kraken_data_recorder.Base.{
  List, [], ◌∷◌, String, some, ◌≡◌, refl, sym, ap, ◌∙◌, inl, inr, arith,
}
use kraken_data_recorder.Crc.{Crc}
use kraken_data_recorder.LevelBook
use kraken_data_recorder.LevelBook.{LevelBook, accept_found}
use kraken_data_recorder.LevelBook.Frame.{
  precisions, accept_pair_frame, accept_book_frame, accept_found-precisions,
}
use kraken_data_recorder.Messages.{Pair, Instrument, Book}
use kraken_data_recorder.Refdata
use kraken_data_recorder.Refdata.{Refdata, pair_precision}
use kraken_data_recorder.Refdata.Latest.{latest, pair_precision-accept}
use kraken_data_recorder.UnorderedMap.{lookup}
use kraken_data_recorder.Recorder.{accept_pairs}

-- Every symbol has the same precisions in both, or is unknown to both.
abbrev pub IsAgreed : Refdata → LevelBook → Type 0
IsAgreed refdata b = (q : String) → pair_precision q refdata ≡ precisions (lookup q b.sides)

pub accept_pairs-latest :
    (q : String) (pairs : List Pair) (b : LevelBook)
    → precisions (lookup q (accept_pairs pairs b).sides)
      ≡ latest q pairs (precisions (lookup q b.sides))
unfolding accept_pairs latest
accept_pairs-latest q [] b = refl
accept_pairs-latest q (pair ∷ pairs) b =
    accept_pairs-latest q pairs (LevelBook.accept_pair b pair)
    ∙ ap (latest q pairs) (accept_pair_frame b pair q).0

pub accept_instrument-IsAgreed :
    (response : Instrument) (refdata : Refdata) (b : LevelBook)
    → IsAgreed refdata b
    → IsAgreed (Refdata.accept response refdata) (accept_pairs response.pairs b)
accept_instrument-IsAgreed response refdata b h q =
    pair_precision-accept q response refdata
    ∙ ap (latest q response.pairs) (h q)
    ∙ sym (accept_pairs-latest q response.pairs b)

module _ (crc : Crc) where
  pub accept_book-IsAgreed :
      (book : Book) (refdata : Refdata) (b : LevelBook)
      → IsAgreed refdata b
      → IsAgreed refdata (LevelBook.accept_book crc b book).0
  accept_book-IsAgreed book refdata b h q = elim (accept_book_frame crc b book q) [
    | inl (unknown, same) ↦ rw same (h q)
    | inr (sides, found, result, changed) ↦
        let kept : precisions (some (accept_found crc sides book).0) ≡ precisions (some sides) =
          accept_found-precisions crc sides book in
        h q ∙ ground (arith, changed, found, kept, eq_iff book.symbol q)
  ]
