-- ===== src/LoopTests.antt =====
-- Instances of the theorems on the loop of `main` and on what it records.
use kraken_data_recorder.Base.{
  ℕ, List, suc, pos, true, false, [], ◌∷◌, none, some, ok, err, no_refdata, bogus_crc32, ◌≡◌, ◌⊎◌,
  refl, arith,
}
use kraken_data_recorder.BookSink
use kraken_data_recorder.Config.{default_config}
use kraken_data_recorder.Engine.{new_engine}
use kraken_data_recorder.Engine.Queue.{feed}
use kraken_data_recorder.LevelBook.{accept_found, accept_pair}
use kraken_data_recorder.Sides.{
  accept_update, apply_update, apply_quotes, truncate, verify_checksum, crc32, update_checksum,
  checksum_from,
}
use kraken_data_recorder.TradesSink
use kraken_data_recorder.UnorderedMap.{lookup, store}
use kraken_data_recorder.Recorder.{new_recorder, accept_instrument, accept_book, accept_pairs}
use kraken_data_recorder.Recorder.Loop.{
  process_timer, interrupted, take_off, run, started, terminated,
}
use kraken_data_recorder.BookSink.{BookSink, accept}
use kraken_data_recorder.BookSink.Log as BookLog
use kraken_data_recorder.TradesSink.Log as TradeLog
use kraken_data_recorder.Engine
use kraken_data_recorder.Session
use kraken_data_recorder.Session.{start_processing, on_resolve, start, fail_if}
use kraken_data_recorder.Session.Chain.{resolved, handle}
use kraken_data_recorder.Recorder.{Recorder}
use kraken_data_recorder.Recorder.Files.{Files, main-Files}
use kraken_data_recorder.Recorder.Options.{Given, nothing_given, config_of, left, main}
use kraken_data_recorder.Recorder.Loop.{Event, completed, stopped, when_pending, called, run_one}
use kraken_data_recorder.Recorder.Verified.{IsVerifiedAfter, run-IsVerified}
use kraken_data_recorder.Recorder.Phases.{IsPhased, run-IsPhased}
use kraken_data_recorder.Engine.Numbered.{IsNumberedWorld}
use kraken_data_recorder.Recorder.Numbered.{run-IsNumbered}
use kraken_data_recorder.Recorder.Stop.{IsEnded, run-IsEnded}
use kraken_data_recorder.Recorder.Log.{Extends, run-Extends}
use kraken_data_recorder.Recorder.Recorded.{rows_of, run-recorded}
use kraken_data_recorder.RowLog.{IsFile}
use kraken_data_recorder.Session.{process_wait}
use kraken_data_recorder.Messages.{Book}
use kraken_data_recorder.LevelBook
use kraken_data_recorder.Refdata
use kraken_data_recorder.AssetsSink
use kraken_data_recorder.PairsSink
use kraken_data_recorder.Refdata.{Refdata, pair_precision}
use kraken_data_recorder.Engine.{Engine}
use kraken_data_recorder.Recorder.Drain.{IsDrained, run-IsDrained}
use kraken_data_recorder.Recorder.Exit.{destroy}
use kraken_data_recorder.Recorder.Faults.{run-bogus_book}
use kraken_data_recorder.Recorder.Outcome.{taken}
use kraken_data_recorder.Recorder.Run.{
  IsConsistent, new_recorder-IsConsistent, accept_instrument-IsConsistent, run-IsConsistent,
}
use kraken_data_recorder.TestData.{
  toy_json, toy_readers, toy_crc, header, instrument, bogus_book, recorder, trade, trades,
  good_book, disk, disk-WritersWork, env, events, running, fresh, quiet_env, queue,
}

run-IsConsistent_example :
    IsConsistent (run env events (started env (new_recorder disk default_config))).0.1.1.1
run-IsConsistent_example =
    run-IsConsistent toy_json toy_readers (λ value. ok tt) (λ value. pos 0) toy_crc (λ json. [])
      (λ sent msg. (false, 0)) default_config disk events disk-WritersWork

recorder-IsConsistent : IsConsistent recorder
recorder-IsConsistent =
    accept_instrument-IsConsistent instrument (new_recorder disk default_config)
      (new_recorder-IsConsistent disk default_config disk-WritersWork)

timer_due : take_off (process_wait false) running.pending ≡ some []
unfolding take_off
timer_due = refl

abbrev queued : List Book → Engine
queued books = record new_engine { book_responses = books }

known_pair : lookup "BTC/USD" recorder.level_book.sides ≡ some fresh
unfolding accept_instrument AssetsSink.accept PairsSink.accept accept_pairs accept_pair lookup store
known_pair = refl

bogus_checksum : (accept_found toy_crc fresh bogus_book).1 ≡ err (bogus_crc32 5 0)
unfolding accept_found accept_update apply_update apply_quotes truncate verify_checksum crc32
    update_checksum checksum_from
bogus_checksum = refl

run-bogus_book_example :
    let (p, ending) =
      run env
        (process_timer false 5 ∷ interrupted ∷ [])
        (false, (running, (queued (bogus_book ∷ []), recorder))) in
    (ending ≡ terminated (bogus_crc32 5 0))
    × (taken p.1.1.1.book_sink ≡ suc (taken recorder.book_sink))
run-bogus_book_example =
    run-bogus_book toy_crc env 5 (interrupted ∷ []) running (queued (bogus_book ∷ [])) recorder
      bogus_book [] fresh (bogus_crc32 5 0) [] refl refl recorder-IsConsistent.book_rows
      recorder-IsConsistent.agreed refl timer_due refl known_pair bogus_checksum

taken_queue : (feed quiet_env.sink queue recorder).1 ≡ ok tt
unfolding feed
taken_queue = refl

run-IsDrained_example :
    IsDrained quiet_env
      (feed quiet_env.sink queue recorder).0
      (run quiet_env (process_timer false 5 ∷ []) (false, (running, (queued queue, recorder))))
run-IsDrained_example =
    run-IsDrained quiet_env (5 ∷ []) running (queued queue) recorder refl ([], timer_due)
      (omega arith) taken_queue

abbrev refdata : Refdata
refdata = recorder.refdata

accept-Holds_example :
    ((pair_precision "BTC/USD" refdata ≡ none)
      × (BookSink.accept bogus_book refdata (BookSink.new_sink disk.books)
          ≡ ((BookSink.new_sink disk.books), err (no_refdata "BTC/USD"))))
    ⊎ ((precision : ℕ × ℕ) × (pair_precision "BTC/USD" refdata ≡ some precision)
        × ((BookSink.accept bogus_book refdata (BookSink.new_sink disk.books)).1 ≡ ok tt)
        × BookLog.Holds
            (BookSink.accept bogus_book refdata (BookSink.new_sink disk.books)).0
            (BookLog.row_of precision bogus_book ∷ []))
accept-Holds_example =
    BookLog.accept-Holds bogus_book refdata (BookSink.new_sink disk.books) []
      (BookLog.new_sink-Holds disk.books disk-WritersWork.0)

accept-rows_of_example :
    TradeLog.Holds
      (TradesSink.accept trades refdata (TradesSink.new_sink disk.trades)).0
      (TradeLog.rows_of header refdata (trade ∷ [])).0
    × ((TradesSink.accept trades refdata (TradesSink.new_sink disk.trades)).1
        ≡ (TradeLog.rows_of header refdata (trade ∷ [])).1)
accept-rows_of_example =
    TradeLog.accept-rows_of trades refdata (TradesSink.new_sink disk.trades) []
      (TradeLog.new_sink-Holds disk.trades disk-WritersWork.1)

run-IsPhased_example : IsPhased (run env events (started env recorder)).0.1.0.pending
run-IsPhased_example = run-IsPhased env events recorder

run-IsEnded_example :
    IsEnded env (run env (process_timer false 5 ∷ interrupted ∷ events) (started env recorder))
    × (run env (process_timer false 5 ∷ interrupted ∷ events) (started env recorder)
        ≡ run env (process_timer false 5 ∷ interrupted ∷ []) (started env recorder))
run-IsEnded_example =
    run-IsEnded env (process_timer false 5 ∷ []) events false (started env recorder).1

empty_books : BookLog.Holds recorder.book_sink []
unfolding accept_instrument AssetsSink.accept PairsSink.accept
empty_books = (BookLog.new_sink-Holds disk.books disk-WritersWork.0)

empty_trades : TradeLog.Holds recorder.trades_sink []
unfolding accept_instrument AssetsSink.accept PairsSink.accept
empty_trades = (TradeLog.new_sink-Holds disk.trades disk-WritersWork.1)

run-Extends_example :
    Extends [] []
      (run env
        (process_timer false 5 ∷ interrupted ∷ [])
        (false, (running, (queued queue, recorder)))).0.1.1.1
run-Extends_example =
    run-Extends toy_crc env refl (process_timer false 5 ∷ interrupted ∷ []) false running
      (queued queue) recorder [] [] empty_books empty_trades

fed_good : (feed env.sink (good_book ∷ []) recorder).1 ≡ ok tt
unfolding feed accept_book accept_instrument AssetsSink.accept PairsSink.accept accept_pairs
    accept_pair lookup store Refdata.accept LevelBook.accept_book pair_precision BookSink.accept
    accept_found accept_update apply_update apply_quotes truncate verify_checksum crc32
    update_checksum checksum_from
fed_good = refl

run-recorded_example :
    IsFile BookLog.columns_of
      (destroy
        (run env
          (process_timer false 5 ∷ [])
          (false, (running, (queued (good_book ∷ []), recorder)))).0.1.1.1).book_sink.batches
      (rows_of refdata (good_book ∷ []))
run-recorded_example =
    run-recorded toy_crc env refl refl (5 ∷ []) running (queued (good_book ∷ [])) recorder [] refl
      ([], timer_due) (omega arith) fed_good empty_books

run-IsNumbered_example : IsNumberedWorld env (run env events (started env recorder)).0.1
run-IsNumbered_example = run-IsNumbered env events recorder

abbrev few : Given
few = record nothing_given { capture_book = some false }

abbrev short_run : List Event
short_run = completed (resolved false) ∷ process_timer true 5 ∷ interrupted ∷ []

abbrev recorded_nothing : Recorder
recorded_nothing = destroy (new_recorder disk (config_of few))

main_returns :
    main toy_json toy_readers
      (λ value. ok tt)
      (λ value. pos 0)
      toy_crc
      (λ json. [])
      (λ sent msg. (false, 0))
      disk
      few
      short_run
    ≡ left recorded_nothing stopped
unfolding main run run_one when_pending called take_off start_processing handle on_resolve config_of
    Engine.stop_processing Session.stop_processing start fail_if
main_returns = refl

main-Files_example : Files (config_of few) recorded_nothing
main-Files_example =
    main-Files toy_json toy_readers (λ value. ok tt) (λ value. pos 0) toy_crc (λ json. [])
      (λ sent msg. (false, 0)) disk few short_run recorded_nothing disk-WritersWork main_returns

run-IsVerified_example :
    IsVerifiedAfter toy_crc env refl refl "BTC/USD"
      (good_book ∷ [])
      none
      recorder.level_book
      (run env
        (process_timer false 5 ∷ [])
        (false, (running, (queued (good_book ∷ []), recorder)))).0.1.1.1.level_book
run-IsVerified_example =
    run-IsVerified toy_crc env refl refl "BTC/USD" (5 ∷ []) running (queued (good_book ∷ []))
      recorder refl ([], timer_due) (omega arith) fed_good
