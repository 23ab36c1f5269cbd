-- ===== src/RecorderTests.antt =====
-- Instances of the theorems on the recorder, its sinks, its configuration and its parsers.
use kraken_data_recorder.Arrow.{Fits}
use kraken_data_recorder.Base.{pos, false, [], ◌∷◌, ok, Ensures, ◌>>=◌, ◌≡◌, inl, refl, arith}
use kraken_data_recorder.BookSink
use kraken_data_recorder.BookSink.Schema as BookSchema
use kraken_data_recorder.Config.{default_config, from_json, to_json_obj}
use kraken_data_recorder.Config.RoundTrip.{from_json-to_json_obj}
use kraken_data_recorder.Decimal.{from_str}
use kraken_data_recorder.Decimal.Bounds.{Outcome, from_str-Outcome}
use kraken_data_recorder.Messages.Decoded.{IsKeptBook, book_from_json-IsKept}
use kraken_data_recorder.Messages.FromJson.{book_from_json}
use kraken_data_recorder.Messages.BookRoundTrip.{reread_quotes, book_from_json-to_json}
use kraken_data_recorder.Messages.ToJson.{book_to_json_obj}
use kraken_data_recorder.Recorder.{new_recorder}
use kraken_data_recorder.Timestamp
use kraken_data_recorder.Recorder.Run.{
  IsConsistent, new_recorder-IsConsistent, accept_instrument-IsConsistent,
}
use kraken_data_recorder.TestData.{
  toy_json, disk, disk-WritersWork, toy_reading, toy_readers, one_book, header, instrument,
  bogus_book, recorder, toy_writers, quoted_book,
}

from_json-to_json_obj_example :
    from_json toy_json (to_json_obj (record default_config { capture_book = false }))
    ≡ ok default_config
from_json-to_json_obj_example =
    from_json-to_json_obj toy_json toy_reading (record default_config { capture_book = false })
      (omega arith) (omega arith)

book_from_json-IsKept_example :
    Ensures IsKeptBook (book_from_json toy_json toy_readers (pos 0) one_book)
book_from_json-IsKept_example = book_from_json-IsKept toy_json toy_readers (pos 0) one_book

from_str-Outcome_example : Outcome (b'1' ∷ b'.' ∷ b'5' ∷ []) (from_str (b'1' ∷ b'.' ∷ b'5' ∷ []))
from_str-Outcome_example = from_str-Outcome (b'1' ∷ b'.' ∷ b'5' ∷ [])

recorder-IsConsistent : IsConsistent recorder
recorder-IsConsistent =
    accept_instrument-IsConsistent instrument (new_recorder disk default_config)
      (new_recorder-IsConsistent disk default_config disk-WritersWork)

append-nulls_example :
    ¬ Fits BookSchema.schema
      (BookSchema.arrays (BookSink.append 1 8 bogus_book BookSink.no_columns))
append-nulls_example = BookSchema.append-nulls 1 8 bogus_book BookSink.no_columns (inl refl)

book_from_json-to_json_example :
    book_from_json toy_json toy_readers (pos 3) (book_to_json_obj toy_writers 1 8 quoted_book) ≡ (
      reread_quotes toy_json toy_readers (pos 3) toy_reading toy_writers 1 8 quoted_book.asks
      >>= λ asks. ok (record quoted_book {
        header = record header { recv_tm = pos 3 };
        asks = asks;
        timestamp = pos 1;
      }))
unfolding reread_quotes Timestamp.from_iso_8601
book_from_json-to_json_example =
    book_from_json-to_json toy_json toy_readers (pos 3) toy_reading toy_writers 1 8 quoted_book
      (omega arith)
