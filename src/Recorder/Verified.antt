-- ===== src/Recorder/Verified.antt =====
-- The level book after the queue of the books.
use kraken_data_recorder.Base.{
  ℕ, ◌≤◌, ◌*◌, true, false, List, [], ◌∷◌, String, map, length, Option, none, some, Result, ok, err,
  ◌≡◌, inl, inr, refl, sym, ap, ◌∙◌, Result-cases,
}
use kraken_data_recorder.BookSink
use kraken_data_recorder.BookSink.{BookSink}
use kraken_data_recorder.Crc.{Crc}
use kraken_data_recorder.Engine.{Environment, Engine, c_process_batch_size}
use kraken_data_recorder.Engine.Queue.{feed, feed-cons, feed-thrown}
use kraken_data_recorder.LevelBook
use kraken_data_recorder.LevelBook.{LevelBook}
use kraken_data_recorder.LevelBook.Verified.{
  sides_after, last_crc32, HasCrc32, accept_book-HasCrc32,
}
use kraken_data_recorder.Messages.{Book}
use kraken_data_recorder.Session.{Session, Operation, process_wait}
use kraken_data_recorder.UnorderedMap.{lookup}
use kraken_data_recorder.Recorder.{Recorder, accept_book, after_recorded, sink_of}
use kraken_data_recorder.Recorder.Drain.{run-IsDrained}
use kraken_data_recorder.Recorder.Recorded.{accept_book-captured}
use kraken_data_recorder.Recorder.Loop.{process_timer, take_off, run}

-- A call that does not throw has reached the level book.
after_recorded-level_book :
    (r : Recorder) (recorded : BookSink × Result (Unit {0}))
    (booked : LevelBook × Result (Unit {0}))
    → (after_recorded r recorded booked).1 ≡ ok tt
    → ((after_recorded r recorded booked).0.level_book ≡ booked.0) × (booked.1 ≡ ok tt)
after_recorded-level_book r (s, err x) booked returned = cc
after_recorded-level_book r (s, ok _) booked returned = (refl, returned)

module _ (crc : Crc) (env : Environment Recorder) (made : env.sink ≡ sink_of crc env.config)
    (captures : env.config.capture_book ≡ true) (symbol : String) where
  accepts : env.sink.accept_book ≡ accept_book crc
  accepts = accept_book-captured crc env made captures

  -- The sides of the symbol are those that its books make of the sides that it had, and their
  -- checksum is that of the last of them.
  abbrev pub IsVerifiedAfter : List Book → Option ℕ → LevelBook → LevelBook → Type 0
  IsVerifiedAfter books known before after =
      (lookup symbol after.sides ≡ sides_after crc symbol books (lookup symbol before.sides))
      × HasCrc32 crc after symbol (last_crc32 crc symbol books known)

  joined :
      (book : Book) (books : List Book) (known : Option ℕ) (before middle after last : LevelBook)
      → last ≡ after
      → lookup symbol middle.sides ≡ sides_after crc symbol (book ∷ []) (lookup symbol before.sides)
      → IsVerifiedAfter books (last_crc32 crc symbol (book ∷ []) known) middle after
      → IsVerifiedAfter (book ∷ books) known before last
  unfolding sides_after last_crc32
  joined book books known before middle after last same one rest =
      let sides : lookup symbol last.sides
          ≡ sides_after crc symbol (book ∷ books) (lookup symbol before.sides) =
        ap (λ b. lookup symbol b.sides) same ∙ rest.0 ∙ ap (sides_after crc symbol books) one in
      (sides, rw same rest.1)

  feed-IsVerifiedAfter :
      (books : List Book) (r : Recorder) (known : Option ℕ)
      → HasCrc32 crc r.level_book symbol known
      → (feed env.sink books r).1 ≡ ok tt
      → IsVerifiedAfter books known r.level_book (feed env.sink books r).0.level_book
  unfolding feed accept_book sides_after last_crc32
  feed-IsVerifiedAfter [] r known h fed = (refl, h)
  feed-IsVerifiedAfter (book ∷ books) r known h fed =
      elim (Result-cases (accept_book crc book r).1) [
        | inl (x, thrown) ↦
            let failed =
              feed-thrown env.sink book books r x (ap (λ f. (f book r).1) accepts ∙ thrown) in
            cc
        | inr (done, taken) ↦
            let r1 = (accept_book crc book r).0 in
            let more : feed env.sink (book ∷ books) r ≡ feed env.sink books r1 =
              feed-cons env.sink book books r r1
                (ap (λ f. f book r) accepts ∙ ap (λ result. (r1, result)) taken) in
            let booked =
              after_recorded-level_book r (BookSink.accept book r.refdata r.book_sink)
                (LevelBook.accept_book crc r.level_book book) taken in
            let one = accept_book-HasCrc32 crc r.level_book book symbol known booked.1 h in
            let rest =
              feed-IsVerifiedAfter books r1 (last_crc32 crc symbol (book ∷ []) known)
                (rw (booked.0) (one.1)) (ap (λ f. f.1) (sym more) ∙ fed) in
            joined book books known r.level_book r1.level_book _ _ (ap (λ f. f.0.level_book) more)
              (ap (λ b. lookup symbol b.sides) (booked.0) ∙ one.0) rest
      ]

  -- While the program is running, waits for the process timer and captures books, as many waits as
  -- there are batches of 64 in the queue leave, if no book of the queue makes the sink or the level
  -- book throw: for each symbol, the sides that the books of that symbol alone make, in order, of
  -- the sides that it had; and, if the queue has a book of the symbol, sides whose checksum is the
  -- one that the last of these books carries.
  pub run-IsVerified :
      (times : List ℕ) (s : Session) (e : Engine) (r : Recorder)
      → s.keep_processing ≡ true
      → (pending : List Operation) × (take_off (process_wait false) s.pending ≡ some pending)
      → length e.book_responses ≤ c_process_batch_size * length times
      → (feed env.sink e.book_responses r).1 ≡ ok tt
      → IsVerifiedAfter e.book_responses none r.level_book
          (run env (map (process_timer false) times) (false, (s, (e, r)))).0.1.1.1.level_book
  run-IsVerified times s e r on waits enough fed =
      let drained = run-IsDrained env times s e r on waits enough fed in
      rw (drained.1) (feed-IsVerifiedAfter e.book_responses r none (λ n absurd. cc) fed)
