-- ===== src/FifoTests.antt =====
-- Instances of the theorems on the books that arrive at the program.
use kraken_data_recorder.Refdata
use kraken_data_recorder.AssetsSink
use kraken_data_recorder.PairsSink
use kraken_data_recorder.Recorder
use kraken_data_recorder.UnorderedMap
use kraken_data_recorder.LevelBook
use kraken_data_recorder.Sides
use kraken_data_recorder.Base.{
  ap, if◌then◌else◌, ◌==◌, pos, true, false, List, [], ◌∷◌, ◌++◌, ok, ◌≡◌, refl,
}
use kraken_data_recorder.BookSink
use kraken_data_recorder.BookSink.Log as BookLog
use kraken_data_recorder.Engine
use kraken_data_recorder.Engine.{new_engine}
use kraken_data_recorder.Engine.Fifo.{IsQueued}
use kraken_data_recorder.Session
use kraken_data_recorder.Session.{start_processing}
use kraken_data_recorder.Session.Chain
use kraken_data_recorder.Simdjson.{Simdjson}
use kraken_data_recorder.Simdjson.Reading.{member}
use kraken_data_recorder.Messages.FromJson.{book_from_json, instrument_from_json}
use kraken_data_recorder.Requests.{
  Json, string, number, array, object, item, no_items, field, no_fields,
}
use kraken_data_recorder.Session.Chain.{resolved, connected, ssl_shaken, shaken, filled}
use kraken_data_recorder.Recorder.{Recorder, new_recorder, accept_instrument}
use kraken_data_recorder.Recorder.Exit.{destroy}
use kraken_data_recorder.Recorder.Fifo.{IsSettled, run-IsSettled}
use kraken_data_recorder.Recorder.Loop.{
  Event, completed, process_timer, interrupted, stopped, run, run_one, when_pending, called,
  take_off, started,
}
use kraken_data_recorder.Recorder.Options.{nothing_given, config_of, env_of, left, destroyed, main}
use kraken_data_recorder.Engine.{Environment}
use kraken_data_recorder.Recorder.Received.{received}
use kraken_data_recorder.Recorder.Rows.{
  IsRecorded, env-Tracks, books_received, queue_left, Delivered, main-Delivered,
}
use kraken_data_recorder.TestData.{
  toy_json, toy_crc, recorder, disk, disk-WritersWork, exact_readers, env, running, queue,
}

at_start : IsRecorded [] recorder
unfolding accept_instrument AssetsSink.accept PairsSink.accept
at_start = ([], BookLog.new_sink-Holds disk.books disk-WritersWork.0, tt)

queued : IsQueued env IsRecorded (env-Tracks toy_crc env refl refl) queue queue recorder
queued = record { taken = []; tracked = at_start; split = refl }

abbrev wait : List Event
wait = process_timer false 5 ∷ interrupted ∷ []

run-IsSettled_example :
    IsSettled env IsRecorded
      (env-Tracks toy_crc env refl refl)
      (queue
        ++ received env wait
            (false, (running, (record new_engine { book_responses = queue }, recorder))))
      (run env wait (false, (running, (record new_engine { book_responses = queue }, recorder))))
run-IsSettled_example =
    run-IsSettled env IsRecorded (env-Tracks toy_crc env refl refl) queue wait false running
      (record new_engine { book_responses = queue }) recorder queued

-- A book with no levels, and a snapshot of one asset and one pair.
abbrev book_doc : Json
book_doc = object (
    field "channel" (string "book") (
      field "type" (string "update") (
        field "data"
          (array (
            item
              (object (
                field "asks" (array no_items) (
                  field "bids" (array no_items) (
                    field "checksum" (number 0) (
                      field "symbol" (string "BTC/USD")
                        (field "timestamp" (string "") no_fields))))))
              no_items))
          no_fields)))

abbrev instrument_doc : Json
instrument_doc = object (
    field "channel" (string "instrument") (
      field "type" (string "snapshot") (
        field "data"
          (object (
            field "assets" (array (item (string "BTC") no_items))
              (field "pairs" (array (item (string "BTC/USD") no_items)) no_fields)))
          no_fields)))

-- A reader for which a message that begins with 'i' is the snapshot, and any other the book.
abbrev plain_json : Simdjson
plain_json = record toy_json {
  iterate = λ text. elim text [
    | [] ↦ ok book_doc
    | c ∷ rest ↦ ok (if c == b'i' then instrument_doc else book_doc)
  ];
}

-- A run in which the snapshot arrives and then a book, which a process timer takes from the queue,
-- and then a book that is still in the queue when the signal comes.
abbrev arrival : List Event
arrival =
    completed (resolved false)
    ∷ completed (connected false true)
    ∷ completed (ssl_shaken false)
    ∷ completed (shaken false)
    ∷ completed (filled false (b'i' ∷ b'}' ∷ []) 2)
    ∷ completed (filled false (b'{' ∷ b'}' ∷ []) 2)
    ∷ process_timer true 5
    ∷ process_timer false 5
    ∷ completed (filled false (b'{' ∷ b'}' ∷ []) 2)
    ∷ interrupted
    ∷ []

abbrev program : Environment Recorder
program =
    env_of plain_json exact_readers (λ value. ok tt) (λ value. pos 0) toy_crc (λ json. [])
      (λ sent msg. (false, 0)) nothing_given

abbrev at_end : Recorder
at_end = (run program arrival (started program (new_recorder disk program.config))).0.1.1.1

abbrev recorded_one : Recorder
recorded_one = destroy at_end

run_stops : (run program arrival (started program (new_recorder disk program.config))).1 ≡ stopped
unfolding run run_one when_pending called take_off start_processing config_of Chain.handle
    Session.on_resolve Session.on_connect Session.on_ssl_handshake Session.on_handshake
    Engine.connected_cb Session.on_read Engine.handle_msg member book_from_json instrument_from_json
    Engine.stop_processing accept_instrument AssetsSink.accept PairsSink.accept
    Engine.on_first_process_timer Recorder.accept_book BookSink.accept Refdata.pair_precision
    UnorderedMap.lookup Refdata.accept UnorderedMap.store LevelBook.accept_book
    LevelBook.accept_pair Sides.accept_update Sides.verify_checksum Sides.crc32 Sides.apply_update
run_stops = refl

-- One of the two books is the row of the file.
one_row : at_end.book_sink.num_rows ≡ 1
unfolding run run_one when_pending called take_off start_processing config_of Chain.handle
    Session.on_resolve Session.on_connect Session.on_ssl_handshake Session.on_handshake
    Engine.connected_cb Session.on_read Engine.handle_msg member book_from_json instrument_from_json
    Engine.stop_processing accept_instrument AssetsSink.accept PairsSink.accept
    Engine.on_first_process_timer Recorder.accept_book BookSink.accept Refdata.pair_precision
    UnorderedMap.lookup Refdata.accept UnorderedMap.store LevelBook.accept_book
    LevelBook.accept_pair Sides.accept_update Sides.verify_checksum Sides.crc32 Sides.apply_update
one_row = refl

main_returns :
    main plain_json exact_readers
      (λ value. ok tt)
      (λ value. pos 0)
      toy_crc
      (λ json. [])
      (λ sent msg. (false, 0))
      disk
      nothing_given
      arrival
    ≡ left recorded_one stopped
unfolding main
main_returns = ap (λ ending. left (destroyed at_end ending) ending) run_stops

captures : (config_of nothing_given).capture_book ≡ true
unfolding config_of
captures = refl

main-Delivered_example :
    Delivered
      (books_received plain_json exact_readers
        (λ value. ok tt)
        (λ value. pos 0)
        toy_crc
        (λ json. [])
        (λ sent msg. (false, 0))
        disk
        nothing_given
        arrival)
      (queue_left plain_json exact_readers
        (λ value. ok tt)
        (λ value. pos 0)
        toy_crc
        (λ json. [])
        (λ sent msg. (false, 0))
        disk
        nothing_given
        arrival)
      recorded_one
main-Delivered_example =
    main-Delivered plain_json exact_readers (λ value. ok tt) (λ value. pos 0) toy_crc (λ json. [])
      (λ sent msg. (false, 0)) disk nothing_given arrival recorded_one disk-WritersWork captures
      main_returns
