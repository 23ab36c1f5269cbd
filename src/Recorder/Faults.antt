-- ===== src/Recorder/Faults.antt =====
-- Exceptions of the sink in the process timer's handler, in the loop of `main`.
use kraken_data_recorder.Base.{
  ℕ, suc, Bool, true, false, List, ◌∷◌, some, take, if◌then◌else◌, Result, ok, err, Error, ◌≡◌, inl,
  inr, refl, ap, ◌∙◌,
}
use kraken_data_recorder.BookSink.Rows.{IsSound}
use kraken_data_recorder.Crc.{Crc}
use kraken_data_recorder.Engine.{Engine, Environment, on_process_timer, c_process_batch_size}
use kraken_data_recorder.Engine.Queue.{feed, feed-thrown, on_process_timer-batch}
use kraken_data_recorder.LevelBook.{accept_found}
use kraken_data_recorder.Messages.{Book}
use kraken_data_recorder.Session.{Session, Operation, process_wait}
use kraken_data_recorder.Sides.{Sides}
use kraken_data_recorder.UnorderedMap.{lookup}
use kraken_data_recorder.Recorder.{Recorder, accept_book, noop_accept, sink_of}
use kraken_data_recorder.Recorder.Loop.{
  called, take_off, when_pending, Event, process_timer, Program, Ending, terminated, run, run_one,
  after_event,
}
use kraken_data_recorder.Recorder.Agree.{IsAgreed}
use kraken_data_recorder.Recorder.Outcome.{taken, accept_book-row}

module _ {R : Type 0} (env : Environment R) where
  open env use {sink}

  left_by :
      (D : Program env × Ending → Type 0) (running : Bool) (p : Program env) (x : Error)
      (result : Result (Unit {0})) (rest left : Program env × Ending)
      → running ≡ true
      → result ≡ err x
      → D (p, terminated x)
      → D (if running then after_event env (p, result) rest else left)
  left_by D true p x (err y) rest left on thrown d = let same : y ≡ x = cc in rw same d
  left_by D true p x (ok _) rest left on thrown d = cc
  left_by D false p x result rest left on thrown d = cc

  -- If the sink throws at a book of the batch, the loop ends with its exception.
  run-terminated :
      (micros : ℕ) (events : List Event) (s : Session) (e : Engine) (r : R) (x : Error)
      (pending : List Operation)
      → s.keep_processing ≡ true
      → take_off (process_wait false) s.pending ≡ some pending
      → (feed sink (take c_process_batch_size e.book_responses) r).1 ≡ err x
      → let (p, ending) = run env (process_timer false micros ∷ events) (false, (s, (e, r))) in
        (ending ≡ terminated x)
        × (p.1.1.1 ≡ (feed sink (take c_process_batch_size e.book_responses) r).0)
  unfolding run run_one called when_pending
  run-terminated micros events s e r x pending on waits thrown =
      let s0 = record s { pending = pending } in
      let batch = on_process_timer-batch env micros s0 e r in
      let (w1, result) = on_process_timer env micros (s0, (e, r)) in
      rw (waits, when_pending)
        (left_by
          (λ o.
            (o.1 ≡ terminated x)
            × (o.0.1.1.1 ≡ (feed sink (take c_process_batch_size e.book_responses) r).0))
          s.keep_processing (false, w1) x result _ _ on (batch.1 ∙ thrown) (refl, batch.0))

module _ (crc : Crc) where
  bogus_row :
      (book : Book) (r : Recorder) (sides : Sides) (x : Error)
      → IsSound r.book_sink
      → IsAgreed r.refdata r.level_book
      → lookup book.symbol r.level_book.sides ≡ some sides
      → (accept_found crc sides book).1 ≡ err x
      → ((accept_book crc book r).1 ≡ err x)
        × (taken (accept_book crc book r).0.book_sink ≡ suc (taken r.book_sink))
  bogus_row book r sides x aligned agreed found thrown =
      elim (accept_book-row crc book r aligned agreed) [
        | inl (absent, same) ↦ cc
        | inr (known, found_1, same, one_more) ↦
            let same_sides : known ≡ sides = cc in
            (same ∙ ap (λ s. (accept_found crc s book).1) same_sides ∙ thrown, one_more)
      ]

module _ (crc : Crc) (env : Environment Recorder) where
  -- While the program runs, waits for the process timer and captures books, over a writer that fails
  -- at no batch, a book at the front of the queue whose symbol is known, but at which its sides throw,
  -- as they do where the checksum is wrong, ends the program with that exception at the next wait of
  -- the process timer, whatever would have happened afterwards. Its row has been taken by the sink.
  pub run-bogus_book :
      (micros : ℕ) (events : List Event) (s : Session) (e : Engine) (r : Recorder) (book : Book)
      (books : List Book) (sides : Sides) (x : Error) (pending : List Operation)
      → env.sink ≡ sink_of crc env.config
      → env.config.capture_book ≡ true
      → IsSound r.book_sink
      → IsAgreed r.refdata r.level_book
      → s.keep_processing ≡ true
      → take_off (process_wait false) s.pending ≡ some pending
      → e.book_responses ≡ book ∷ books
      → lookup book.symbol r.level_book.sides ≡ some sides
      → (accept_found crc sides book).1 ≡ err x
      → let (p, ending) = run env (process_timer false micros ∷ events) (false, (s, (e, r))) in
        (ending ≡ terminated x) × (taken p.1.1.1.book_sink ≡ suc (taken r.book_sink))
  run-bogus_book micros events s e r book books sides x pending made captures aligned agreed on
        waits front found thrown =
      let accepts : env.sink.accept_book ≡ accept_book crc =
        ap (λ sink. sink.accept_book) made
        ∙ ap (λ b. if b then accept_book crc else noop_accept crc) captures in
      let row = bogus_row crc book r sides x aligned agreed found thrown in
      let first : (env.sink.accept_book book r) ≡ accept_book crc book r =
        ap (λ f. f book r) accepts in
      let fed : feed env.sink (take c_process_batch_size e.book_responses) r
          ≡ ((env.sink.accept_book book r).0, err x) =
        rw front (feed-thrown env.sink book _ r x (ap (λ a. a.1) first ∙ row.0)) in
      let ended = run-terminated env micros events s e r x pending on waits (ap (λ f. f.1) fed) in
      (
        ended.0,
        ap (λ r. taken r.book_sink) (ended.1 ∙ ap (λ f. f.0) fed ∙ ap (λ a. a.0) first) ∙ row.1,
      )
