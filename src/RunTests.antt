-- ===== src/RunTests.antt =====
-- Instances of the theorems on messages, sessions and engines, at small data.
use kraken_data_recorder.Base.{
  pos, true, false, ◌&&◌, List, [], ◌∷◌, ◌++◌, none, some, Error, ok, err, out_of_range,
  if◌then◌else◌, ◌≡◌, ◌⊎◌, refl,
}
use kraken_data_recorder.Config.{default_config}
use kraken_data_recorder.Decimal.{Bytes}
use kraken_data_recorder.Messages.{Book, Instrument, Pair}
use kraken_data_recorder.TestData.{pair, header}
use kraken_data_recorder.UnorderedMap.{lookup}
use kraken_data_recorder.LevelBook
use kraken_data_recorder.LevelBook.{LevelBook}
use kraken_data_recorder.LevelBook.Frame.{levels, precisions, accept_pair_frame}
use kraken_data_recorder.Refdata
use kraken_data_recorder.Refdata.{empty_refdata, pair_precision}
use kraken_data_recorder.Session.{
  Session, new_session, start, process_wait, async_read, on_handshake, on_read, fail,
}
use kraken_data_recorder.Session.Handshake.{on_handshake-fail}
use kraken_data_recorder.Session.Reads.{on_read-message, received}
use kraken_data_recorder.Engine.{
  Parser, Sink, Environment, Engine, handle_msg, new_engine, callbacks, on_process_timer,
}
use kraken_data_recorder.Engine.Arrivals.{book_of, handle_msg-book_of}
use kraken_data_recorder.Engine.Queue.{feed, on_process_timer-batch}

abbrev book : Book
book = record {
  header = header;
  asks = [];
  bids = [];
  crc32 = 0;
  symbol = "BTC/USD";
  timestamp = pos 0;
}

abbrev instrument : Instrument
instrument = record { header = header; assets = []; pairs = pair ∷ [] }

abbrev level_book : LevelBook
level_book = LevelBook.init 10

abbrev filled_book : LevelBook
filled_book = LevelBook.accept_pair level_book pair

-- The pair again, with prices of three places.
abbrev finer : Pair
finer = record pair { price_precision = 3 }

accept_pair_frame_example :
    (precisions (lookup "BTC/USD" (LevelBook.accept_pair filled_book finer).sides)
      ≡ some (3, pair.qty_precision))
    × (levels (lookup "BTC/USD" (LevelBook.accept_pair filled_book finer).sides)
        ≡ levels (lookup "BTC/USD" filled_book.sides))
accept_pair_frame_example = accept_pair_frame filled_book finer "BTC/USD"

-- A parser that takes every message for the same update of a book.
abbrev parser : Parser
parser = record {
  Document = Bytes;
  iterate = λ msg. ok msg;
  channel = λ doc. some "book";
  method = λ doc. none;
  kind = λ doc. some "update";
  instrument = λ doc. ok instrument;
  book = λ doc. ok book;
  trades = λ doc. err out_of_range;
  pong = λ doc. ok tt;
  to_json_string = λ doc. ok doc;
}

-- A sink that keeps the books.
abbrev sink : Sink (List Book)
sink = record {
  accept_instrument = λ response kept. (kept, ok tt);
  accept_book = λ response kept. (response ∷ kept, ok tt);
  accept_trades = λ response kept. (kept, ok tt);
}

abbrev env : Environment (List Book)
env = record {
  config = record default_config { book_depth = pos 10; pair_filter = "BTC/USD" ∷ [] };
  parser = parser;
  serialize = λ json. [];
  write = λ sent msg. (false, 0);
  sink = sink;
}

abbrev engine : Engine
engine = record new_engine { book_responses = book ∷ book ∷ [] }

abbrev reading : Session
reading = record new_session { keep_processing = true; read_buffer = b'{' ∷ b'}' ∷ [] }

on_process_timer-batch_example :
    let ((s1, (e1, r1)), result) = on_process_timer env 5 (reading, (engine, [])) in
    let (r', fed) = feed sink (book ∷ book ∷ []) [] in
    (r1 ≡ r')
    × (result ≡ fed)
    × (((fed ≡ ok tt) × (e1.book_responses ≡ []) × (s1 ≡ start (process_wait false) reading))
        ⊎ ((x : Error) × (fed ≡ err x) × (s1 ≡ reading)))
on_process_timer-batch_example = on_process_timer-batch env 5 reading engine []

on_read-message_example :
    let ((s1, c1), continue) =
      (callbacks env).handle_recv (b'{' ∷ b'}' ∷ []) (received false reading, (engine, [])) in
    ((on_read (callbacks env) false 2 (reading, (engine, []))).1 ≡ c1)
    × ((on_read (callbacks env) false 2 (reading, (engine, []))).0.pending
        ≡ (if continue && s1.keep_processing then async_read ∷ s1.pending else s1.pending))
    × ((on_read (callbacks env) false 2 (reading, (engine, []))).0.keep_processing
        ≡ (continue && s1.keep_processing))
on_read-message_example = on_read-message (callbacks env) false reading (engine, []) 2 refl refl

on_handshake-fail_example :
    (on_handshake (callbacks env) true (reading, (engine, []))
      ≡ on_handshake (callbacks env) false (reading, (engine, [])))
    × (on_handshake (callbacks env) true (fail reading, (engine, []))
        ≡ on_handshake (callbacks env) false (reading, (engine, [])))
on_handshake-fail_example = on_handshake-fail (callbacks env) true reading (engine, [])

abbrev refdata : Refdata.Refdata
refdata = Refdata.accept instrument empty_refdata

handle_msg-book_of_example :
    (handle_msg env (b'{' ∷ b'}' ∷ []) (reading, (engine, []))).0.1.0.book_responses
    ≡ (book ∷ book ∷ []) ++ book_of env (b'{' ∷ b'}' ∷ [])
handle_msg-book_of_example = handle_msg-book_of env (b'{' ∷ b'}' ∷ []) reading engine []
