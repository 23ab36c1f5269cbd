-- ===== src/CheckBook/Verdict.antt =====
-- What check_book.cpp returns on the files that the sinks leave.
use kraken_data_recorder.Base.{List, [], ◌∷◌, some}
use kraken_data_recorder.BookSink
use kraken_data_recorder.BookSink.{BookSink}
use kraken_data_recorder.CheckBook.Main.{Nulls, or_null}
use kraken_data_recorder.Crc.{Crc}
use kraken_data_recorder.LevelBook
use kraken_data_recorder.LevelBook.{LevelBook}
use kraken_data_recorder.Messages.{Pair, Instrument}
use kraken_data_recorder.PairsSink
use kraken_data_recorder.PairsSink.{PairsSink}
use kraken_data_recorder.Recorder.{accept_pairs}

-- The pair that a row of a pair is read as.
abbrev read_pair : Nulls → Pair → Pair
read_pair nulls pair = record pair {
  margin_initial = some (or_null nulls.double pair.margin_initial);
  position_limit_long = some (or_null nulls.int64 pair.position_limit_long);
  position_limit_short = some (or_null nulls.int64 pair.position_limit_short);
}

-- The pairs sink after some messages.
abbrev pub recorded : List Instrument → PairsSink → PairsSink
recorded [] s = s
recorded (response ∷ later) s = recorded later (PairsSink.accept response.header response.pairs s).0

-- A level book after some messages.
abbrev pub applied : List Instrument → LevelBook → LevelBook
applied [] b = b
applied (response ∷ later) b = applied later (accept_pairs response.pairs b)
