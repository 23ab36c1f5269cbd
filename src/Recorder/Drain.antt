-- ===== src/Recorder/Drain.antt =====
-- The queue of the books, along the loop of `main`.
use kraken_data_recorder.Base.{
  ℕ, zero, suc, ◌≤◌, ◌*◌, ◌-◌, Bool, true, false, List, [], ◌∷◌, length, take, drop, map, some,
  if◌then◌else◌, Result, ok, err, ◌≡◌, inl, inr, refl, ap, ◌∙◌, arith,
}
use kraken_data_recorder.Messages.{Book}
use kraken_data_recorder.Session.{Session, Operation, start, process_wait}
use kraken_data_recorder.Engine.{Sink, Engine, Environment, on_process_timer, c_process_batch_size}
use kraken_data_recorder.Engine.Queue.{feed, or_else, on_process_timer-batch}
use kraken_data_recorder.Recorder.Loop.{
  called, take_off, when_pending, process_timer, Program, Ending, waiting, run, run_one,
  after_event,
}

-- A list that the sink takes is taken in two parts.
module _ {R : Type 0} (sink : Sink R) where
  abbrev IsSplit : ℕ → List Book → R → Type 0
  IsSplit n books r =
      ((feed sink (take n books) r).1 ≡ ok tt)
      × (feed sink (drop n books) (feed sink (take n books) r).0 ≡ feed sink books r)

  feed-IsSplit :
      (n : ℕ) (books : List Book) (r : R) → (feed sink books r).1 ≡ ok tt → IsSplit n books r
  unfolding feed
  feed-IsSplit zero books r h = (refl, refl)
  feed-IsSplit (suc n) [] r h = (refl, refl)
  feed-IsSplit (suc n) (book ∷ books) r h =
      let (r1, accepted) = sink.accept_book book r in
      by_accepted r1 accepted (feed-IsSplit n books r1) h
    where
      by_accepted :
          (r1 : R) (accepted : Result (Unit {0}))
          → ((feed sink books r1).1 ≡ ok tt → IsSplit n books r1)
          → (or_else sink r1 (feed sink books r1) accepted).1 ≡ ok tt
          → let head = or_else sink r1 (feed sink (take n books) r1) accepted in
            (head.1 ≡ ok tt)
            × (feed sink (drop n books) head.0 ≡ or_else sink r1 (feed sink books r1) accepted)
      by_accepted r1 (err x) rest h = cc
      by_accepted r1 (ok _) rest h = rest h

length-drop : {A : Type 0} (n : ℕ) (xs : List A) → length (drop n xs) ≡ length xs - n
length-drop zero xs = omega arith
length-drop (suc n) [] = omega arith
length-drop (suc n) (x ∷ xs) = omega (arith, length-drop n xs)

no_books : (books : List Book) → length books ≤ 0 → books ≡ []
no_books [] h = refl
no_books (book ∷ books) h = ground arith

module _ {R : Type 0} (env : Environment R) where
  open env use {sink}

  -- The queue is empty, the sink has been fed all books, and the loop goes on.
  abbrev pub IsDrained : R → Program env × Ending → Type 0
  IsDrained r (p, ending) = (p.1.1.0.book_responses ≡ []) × (p.1.1.1 ≡ r) × (ending ≡ waiting)

  continued :
      (D : Program env × Ending → Type 0) (running : Bool) (p : Program env)
      (result : Result (Unit {0})) (rest left : Program env × Ending)
      → running ≡ true
      → result ≡ ok tt
      → D rest
      → D (if running then after_event env (p, result) rest else left)
  continued D true p (ok _) rest left on returned d = d
  continued D true p (err x) rest left on returned d = cc
  continued D false p result rest left on returned d = cc

  -- While the program is running and waits for the process timer, as many waits of the process timer as there are batches of 64 in
  -- the queue empty it, and give all its books to the sink, in order, if the sink throws at none.
  pub run-IsDrained :
      (times : List ℕ) (s : Session) (e : Engine) (r : R)
      → s.keep_processing ≡ true
      → (pending : List Operation) × (take_off (process_wait false) s.pending ≡ some pending)
      → length e.book_responses ≤ c_process_batch_size * length times
      → (feed sink e.book_responses r).1 ≡ ok tt
      → IsDrained
          (feed sink e.book_responses r).0
          (run env (map (process_timer false) times) (false, (s, (e, r))))
  unfolding run run_one called feed start take_off when_pending
  run-IsDrained [] s e r on waits short fed =
      let empty = no_books e.book_responses (omega arith) in
      rw (on, run) (empty, rw empty refl, refl)
  run-IsDrained (micros ∷ times) s e r on (pending, waits) short fed =
      let s0 = record s { pending = pending } in
      let batch = on_process_timer-batch env micros s0 e r in
      let split = feed-IsSplit sink c_process_batch_size e.book_responses r fed in
      let ((s1, (e1, r1)), result) = on_process_timer env micros (s0, (e, r)) in
      elim batch.2 [
        | inl (taken, rest, again) ↦
            let same : feed sink e1.book_responses r1 ≡ feed sink e.book_responses r =
              rw (rest, batch.0) split.1 in
            let later =
              run-IsDrained times s1 e1 r1 (ap (λ s. s.keep_processing) again ∙ on)
                (pending, ap (λ s. take_off (process_wait false) s.pending) again)
                (rw (rest, length-drop c_process_batch_size e.book_responses)
                  (omega (arith, short)))
                (ap (λ f. f.1) same ∙ fed) in
            rw (waits, when_pending)
              (continued (IsDrained (feed sink e.book_responses r).0) s.keep_processing
                (false, (s1, (e1, r1))) result
                (run env (map (process_timer false) times) (false, (s1, (e1, r1)))) _ on
                (batch.1 ∙ taken) (later.0, later.1 ∙ ap (λ f. f.0) same, later.2))
        | inr (x, thrown, stays) ↦ cc
      ]
