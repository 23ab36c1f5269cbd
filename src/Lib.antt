-- ===== src/Lib.antt =====
-- Kraken Data Recorder: a program that subscribes to the channels of the Kraken websocket API,
-- keeps the level books of the pairs, checks them against the venue's checksums and records what
-- it receives in parquet files.
--
-- The program's parts. A `session_t` is the connection: it reads messages and hands them to the
-- `engine_t`, which parses them, queues the books, hands instruments and trades to its sink at once
-- and the books in batches from a timer. The sink keeps a `level_book_t`, which has a `sides_t` for
-- each symbol: two maps from prices to quantities, which are `decimal_t`s.
--
-- - Base: the names of the libraries, lists over native numbers, the errors and the results. An
--   operation that may throw returns a `Result`, and beside it the state that it leaves, where the
--   throw does not undo what was changed.
-- - Decimal (include/decimal.hpp, src/decimal.cpp): `decimal_t`, with its array of 48 characters and
--   its view, either of that array or of the static "0.0". A `char` is its code. `to_int` is modulo
--   2 ^ 64. The reads and writes outside an array that C++ leaves undefined are errors here. Child
--   modules: Digits (numbers and digit strings), Layout (what the array holds around the view),
--   Token and Trim (the constructor's loop and its end), Number, Scan and Bounds (what it does with
--   any token), RoundTrip, Print, Checksum, Order, Faults.
-- - OrderedMap: the part of `std::map` that the program calls, as a list in the order of the
--   comparison. UnorderedMap: `std::unordered_map`, as an association list.
-- - Ascii: the codes of characters as a text.
-- - Timestamp (include/timestamp.hpp): `timestamp_t`, over the date library, of which nothing is
--   assumed. A time stamp is its microseconds.
-- - Crc: `boost::crc_32_type`, of which nothing is assumed.
-- - Messages (include/header.hpp, include/book.hpp, include/instrument.hpp, include/trades.hpp, and
--   the classes that are generated from model/*.json): the messages, as records. FromJson has
--   `from_json` of src/book.cpp, src/instrument.cpp and src/trades.cpp, over Simdjson, the calls of
--   simdjson that they make, of which nothing is assumed but where Reading is named; Decoded is
--   about their books; ToJson, `to_json_obj` of headers, books, instruments and trades, and
--   RoundTrip and BookRoundTrip, the two together.
-- - Config (include/config.hpp, src/config.cpp): the configuration, its JSON and its parser.
-- - Sides (include/sides.hpp, src/sides.cpp): `apply_update`, the checksum, snapshots and updates,
--   and ToJson its JSON. Printed, Alike and Twins are about decimals, levels and books that print
--   alike.
-- - LevelBook (include/level_book.hpp, src/level_book.cpp): the sides of all symbols,
--   and Text its text.
-- - Refdata (include/refdata.hpp, src/refdata.cpp): the precisions of all symbols.
-- - Metrics (include/metrics.hpp, src/metrics.cpp): the counters, modulo 2 ^ 64.
-- - Constants (include/constants.hpp): the strings of the protocol.
-- - Requests (include/requests.hpp, src/requests.cpp): the requests, and the JSON they build.
-- - Session (include/session.hpp, src/session.cpp): one function for each handler. The pending
--   asynchronous operations are part of the state, and Session/Chain has the run of a session as a
--   step relation. The callbacks of the client are a record that the handlers take.
-- - Engine (include/engine.hpp, src/engine.cpp): `handle_msg` with all it calls, and the timers. The
--   parser with the `from_json` functions, the text of JSON, the websocket's write and the sink are
--   an `Environment`. Its callbacks are the ones that its session takes. Keeps and Batches are about
--   predicates on what the sink keeps, Numbered about the ids of the requests,
--   and Arrivals and Fifo about the books that arrive.
-- - BookSink, TradesSink, AssetsSink, PairsSink (parquet/include and parquet/src: book_sink,
--   trade_sink, assets_sink and pairs_sink): `accept`, `flush`, the destructors and the schemas.
--   Arrow's builders are lists, whose calls are taken to succeed. The writer of a sink is any
--   function, which may fail at a batch: Writes has what `flush` does where it does not,
--   TradesSink/Failing is about one that does. Arrow has the types of the columns and fields, and
--   the writers.
-- - Io (parquet/include/io.hpp): the names of the files, over `std::to_string`.
-- - Recorder (kdr_record/kdr_record.cpp): what `main` makes of all that: the lambdas that join the
--   sinks, the reference data and the level book (`accept_instrument`, `accept_book`,
--   `accept_trades`, `sink_of`), the engine over simdjson (Parse), and the loop (Loop): `run`, given
--   what happens, in any order. A handler runs only if its operation is pending, and takes it from
--   the pending ones. Agree, Outcome, Keeps, Run, Pending, Phases, Numbered, Drain, Faults, Stop,
--   Log, Recorded, Verified, Files, Received, Fifo and Rows are about it; Options has the
--   configuration that `main` makes and `main` itself, and Exit the destructors of the sinks. The
--   writers of the four sinks are an argument, `FileWriters`. Instruments is about the messages that
--   a failing writer cuts short.
-- - RowLog: what the book and trades sinks have in common as logs of rows, with BookSink/Log and
--   TradesSink/Log.
-- - CheckBook (test/check_book.cpp): the program that reads a file of books again and gives them to
--   a level book: `extract` and `process_book`, and in Main `process_pairs` and `main`, over the
--   batches that Arrow reads. What C++ leaves undefined, as `dump_sides` at a short side, is an error
--   that is no exception. Replay is about the file of the books, Reread about a row, Verdict
--   about what it returns.
-- - TestData, Tests, RunTests, LoopTests, FifoTests, SinkTests, CheckTests, AlikeTests,
--   RecorderTests, Decimal/Examples: instances at concrete data.
--
-- Bounds and fuel. Every loop is structural recursion: over the characters of a token, the levels of
-- a side, the quotes of a message. `compare_from` takes the number of rounds of the loop, which is
-- the length of the longer fraction, `drop_zeros` takes the end of the view, and `consume` takes the
-- number of books to process, which is at most the length of the queue. Request ids are natural
-- numbers: the 2 ^ 63 requests that `int64_t` has room for are not reached. Precisions are natural
-- numbers too, and so is the depth of a level book: it is what the `int64_t` of the configuration is
-- as a `size_t`. `run` is structural recursion over the events, of which there may be any number.
--
-- Not modelled: simdjson, Arrow, the parsing of the command line, the clock, logging, and the
-- classes that are generated at build time, but for their members. The reader and the
-- writer of parquet files only call Arrow.
pub mod Base
pub mod Decimal
pub mod OrderedMap
pub mod Crc
pub mod Config
pub mod Simdjson
pub mod Messages
pub mod Sides
pub mod UnorderedMap
pub mod LevelBook
pub mod Metrics
pub mod Ascii
pub mod Timestamp
pub mod CheckBook
pub mod Constants
pub mod Io
pub mod Requests
pub mod Refdata
pub mod RowLog
pub mod Recorder
pub mod TestData
pub mod RecorderTests
pub mod Session
pub mod Engine
pub mod BookSink
pub mod TradesSink
pub mod Arrow
pub mod AssetsSink
pub mod PairsSink
pub mod Tests
pub mod LoopTests
pub mod FifoTests
pub mod AlikeTests
pub mod CheckTests
pub mod SinkTests
pub mod RunTests
