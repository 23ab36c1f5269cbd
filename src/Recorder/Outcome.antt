-- ===== src/Recorder/Outcome.antt =====
-- `accept_book` of kdr_record.cpp: the branches of a book message.
use kraken_data_recorder.Base.{
  ℕ, suc, ◌+◌, Option, none, some, ok, err, no_refdata, ◌≡◌, ◌⊎◌, inl, inr, refl, ap, ◌∙◌, Result,
  Option-cases,
}
use kraken_data_recorder.BookSink
use kraken_data_recorder.BookSink.{BookSink}
use kraken_data_recorder.BookSink.Rows.{IsSound, written, accept-IsSound}
use kraken_data_recorder.Crc.{Crc}
use kraken_data_recorder.LevelBook
use kraken_data_recorder.LevelBook.{LevelBook, accept_found}
use kraken_data_recorder.LevelBook.Frame.{precisions, accept_book-found}
use kraken_data_recorder.Messages.{Book}
use kraken_data_recorder.Refdata.{Refdata, pair_precision}
use kraken_data_recorder.Sides.{Sides}
use kraken_data_recorder.UnorderedMap.{lookup}
use kraken_data_recorder.Recorder.{Recorder, accept_book, after_recorded}
use kraken_data_recorder.Recorder.Agree.{IsAgreed}

-- The rows of books that were taken, in the file or not yet.
abbrev pub taken : BookSink → ℕ
taken s = written s.batches + s.num_rows

absent_precisions : {found : Option Sides} → none ≡ precisions found → found ≡ none
absent_precisions {found = none} e = refl
absent_precisions {found = some s} e = cc

accept-unknown :
    (book : Book) (refdata : Refdata) (s : BookSink)
    → pair_precision book.symbol refdata ≡ none
    → BookSink.accept book refdata s ≡ (s, err (no_refdata book.symbol))
unfolding BookSink.accept
accept-unknown book refdata s e = rw (e, BookSink.accept) refl

after_recorded-ok :
    (r : Recorder) (recorded : BookSink × Result (Unit {0}))
    (booked : LevelBook × Result (Unit {0}))
    → recorded.1 ≡ ok tt
    → (after_recorded r recorded booked)
      ≡ (record r { book_sink = recorded.0; level_book = booked.0 }, booked.1)
after_recorded-ok r (s, ok _) booked e = refl
after_recorded-ok r (s, err x) booked e = cc

module _ (crc : Crc) where
  -- A book of a symbol that is unknown changes nothing, and the call throws. Any other is one more
  -- row of the sink, whatever the level book then makes of it, also where its checksum is wrong;
  -- the call throws exactly what the sides of that symbol throw.
  pub accept_book-row :
      (book : Book) (r : Recorder)
      → IsSound r.book_sink
      → IsAgreed r.refdata r.level_book
      → ((lookup book.symbol r.level_book.sides ≡ none)
          × (accept_book crc book r ≡ (r, err (no_refdata book.symbol))))
        ⊎ ((sides : Sides) × (lookup book.symbol r.level_book.sides ≡ some sides)
            × ((accept_book crc book r).1 ≡ (accept_found crc sides book).1)
            × (taken (accept_book crc book r).0.book_sink ≡ suc (taken r.book_sink)))
  unfolding accept_book
  accept_book-row book r aligned agreed =
      let known = agreed book.symbol in
      elim (Option-cases (lookup book.symbol r.level_book.sides)) [
        | inl absent ↦
            let unknown : pair_precision book.symbol r.refdata ≡ none =
              known ∙ ap precisions absent in
            inl (absent, rw (accept-unknown book r.refdata r.book_sink unknown) refl)
        | inr (sides, found) ↦
            let sunk = (accept-IsSound book r.refdata r.book_sink aligned).1 in
            let (thrown, one_more) = row sides found known sunk in
            inr (sides, found, thrown, one_more)
      ]
    where
      row :
          (sides : Sides)
          → lookup book.symbol r.level_book.sides ≡ some sides
          → pair_precision book.symbol r.refdata
            ≡ precisions (lookup book.symbol r.level_book.sides)
          → (((pair_precision book.symbol r.refdata ≡ none)
                × (BookSink.accept book r.refdata r.book_sink
                    ≡ (r.book_sink, err (no_refdata book.symbol))))
              ⊎ (((BookSink.accept book r.refdata r.book_sink).1 ≡ ok tt)
                  × (taken (BookSink.accept book r.refdata r.book_sink).0
                      ≡ suc (taken r.book_sink))))
          → ((accept_book crc book r).1 ≡ (accept_found crc sides book).1)
            × (taken (accept_book crc book r).0.book_sink ≡ suc (taken r.book_sink))
      row sides found known (inl (unknown, thrown)) = cc
      row sides found known (inr (recorded, one_more)) =
          let booked =
            after_recorded-ok r (BookSink.accept book r.refdata r.book_sink)
              (LevelBook.accept_book crc r.level_book book) recorded in
          let result = accept_book-found crc r.level_book book sides found in
          (ap (λ p. p.1) booked ∙ result, ap (λ p. taken p.0.book_sink) booked ∙ one_more)
