-- ===== src/Engine/Queue.antt =====
-- The queue of the book messages: first in, first out, and at most a batch for each wait of the
-- process timer.
use kraken_data_recorder.Base.{
  ℕ, zero, suc, ◌≤◌, true, false, List, [], ◌∷◌, ltb, ◌==◌, length, take, drop, take_of_length-le,
  ◌≢◌, Result, Error, ok, err, ◌≡◌, refl, sym, ◌∙◌, arith, Bool-cases, ◌⊎◌, inl, inr,
}
use kraken_data_recorder.Messages.{Book}
use kraken_data_recorder.Metrics
use kraken_data_recorder.Metrics.{Metrics}
use kraken_data_recorder.Session.{Session, start, process_wait}
use kraken_data_recorder.Engine.{
  Sink, Engine, consume, on_process_timer, min_ℕ, c_process_batch_size, Environment, process_done,
  after_accept,
}

module _ {R : Type 0} (sink : Sink R) where
  abbrev pub or_else : R → R × Result (Unit {0}) → Result (Unit {0}) → R × Result (Unit {0})
  or_else r rest (err x) = (r, err x)
  or_else r rest (ok _) = rest

  -- The books, in their order, given to the sink until it throws.
  unfoldable pub feed : List Book → R → R × Result (Unit {0})
  feed [] r = (r, ok tt)
  feed (book ∷ books) r =
      let (r1, accepted) = sink.accept_book book r in
      let rest = feed books r1 in or_else r1 rest accepted

  -- A book that the sink takes.
  pub feed-cons :
      (book : Book) (books : List Book) (r r1 : R)
      → sink.accept_book book r ≡ (r1, ok tt)
      → feed (book ∷ books) r ≡ feed books r1
  unfolding feed
  feed-cons book books r r1 e = taken (sink.accept_book book r) e
    where
      taken :
          (c : R × Result (Unit {0}))
          → c ≡ (r1, ok tt)
          → or_else c.0 (feed books c.0) c.1 ≡ feed books r1
      taken c e = rw e refl

  -- A book that it throws at.
  pub feed-thrown :
      (book : Book) (books : List Book) (r : R) (x : Error)
      → (sink.accept_book book r).1 ≡ err x
      → feed (book ∷ books) r ≡ ((sink.accept_book book r).0, err x)
  unfolding feed
  feed-thrown book books r x thrown = rw (thrown, or_else) refl

  join :
      (book : Book) (books : List Book) (r : R) (c : (List Book × R) × Result (Unit {0}))
      (fed : R × Result (Unit {0})) (accepted : Result (Unit {0})) (n : ℕ)
      → (c.0.1 ≡ fed.0) × (c.1 ≡ fed.1) × (fed.1 ≡ ok tt → c.0.0 ≡ drop n books)
      → ((after_accept sink book books r c accepted).0.1 ≡ (or_else r fed accepted).0)
        × ((after_accept sink book books r c accepted).1 ≡ (or_else r fed accepted).1)
        × ((or_else r fed accepted).1 ≡ ok tt
            → (after_accept sink book books r c accepted).0.0 ≡ drop n books)
  join book books r c fed (err x) n h = (refl, refl, λ e. cc)
  join book books r c fed (ok _) n h = h

  -- What `consume` leaves of the sink, and its result, are those of `feed` on as many books.
  consume-feed :
      (n : ℕ) (books : List Book) (r : R)
      → n ≤ length books
      → ((consume sink n books r).0.1 ≡ (feed (take n books) r).0)
        × ((consume sink n books r).1 ≡ (feed (take n books) r).1)
        × ((feed (take n books) r).1 ≡ ok tt → (consume sink n books r).0.0 ≡ drop n books)
  unfolding consume feed
  consume-feed zero books r h = (refl, refl, λ _. refl)
  consume-feed (suc n) [] r h = ground arith
  consume-feed (suc n) (book ∷ books) r h =
      let (r1, accepted) = sink.accept_book book r in
      let rest = consume-feed n books r1 (omega arith) in
      join book books r1 (consume sink n books r1) (feed (take n books) r1) accepted n rest

take-min : {A : Type 0} (n : ℕ) (xs : List A) → take (min_ℕ n (length xs)) xs ≡ take n xs
unfolding min_ℕ
take-min n xs = elim (Bool-cases (ltb (length xs) n)) [
  | inl e ↦
      let short : length xs ≤ n = ground arith in
      rw (e, take_of_length-le n xs short, take_of_length-le (length xs) xs (omega arith)) refl
  | inr e ↦ rw (e) refl
]

drop_of_length-le : {A : Type 0} (n : ℕ) (xs : List A) → length xs ≤ n → drop n xs ≡ []
drop_of_length-le zero [] h = refl
drop_of_length-le zero (x ∷ xs) h = ground arith
drop_of_length-le (suc n) [] h = refl
drop_of_length-le (suc n) (x ∷ xs) h = drop_of_length-le n xs (omega arith)

drop-min : {A : Type 0} (n : ℕ) (xs : List A) → drop (min_ℕ n (length xs)) xs ≡ drop n xs
unfolding min_ℕ
drop-min n xs = elim (Bool-cases (ltb (length xs) n)) [
  | inl e ↦
      let short : length xs ≤ n = ground arith in
      rw (e, drop_of_length-le n xs short, drop_of_length-le (length xs) xs (omega arith)) refl
  | inr e ↦ rw (e) refl
]

empty_batch :
    (books : List Book) → (min_ℕ c_process_batch_size (length books) == 0) ≡ true → books ≡ []
unfolding min_ℕ
empty_batch [] h = refl
empty_batch (book ∷ books) h = ground arith

pub min_ℕ-le : (a b : ℕ) → min_ℕ a b ≤ b
unfolding min_ℕ
min_ℕ-le a b = ground arith

by_result :
    {A B C : Type 0} (fed : Result (Unit {0}))
    → (fed ≡ ok tt → A × B)
    → (fed ≢ ok tt → C)
    → ((fed ≡ ok tt) × A × B) ⊎ ((x : Error) × (fed ≡ err x) × C)
by_result (ok _) a b = inl (refl, (a refl).0, (a refl).1)
by_result (err x) a b = inr (x, refl, b (λ e. cc))

module _ {R : Type 0} (sink : Sink R) where
  consume-batch :
      (books : List Book) (r : R)
      → let num = min_ℕ c_process_batch_size (length books) in
        let c = consume sink num books r in
        let fed = feed sink (take c_process_batch_size books) r in
        (c.0.1 ≡ fed.0) × (c.1 ≡ fed.1) × (fed.1 ≡ ok tt → c.0.0 ≡ drop c_process_batch_size books)
  consume-batch books r =
      let num = min_ℕ c_process_batch_size (length books) in
      let counted = consume-feed sink num books r (min_ℕ-le c_process_batch_size (length books)) in
      rw (sym (take-min c_process_batch_size books), sym (drop-min c_process_batch_size books))
        counted

module _ {R : Type 0} (env : Environment R) where
  open env use {sink}

  process_done-fields :
      (seen timed : Metrics) (s : Session) (e : Engine) (c : (List Book × R) × Result (Unit {0}))
      → let ((s1, (e1, r1)), result) = process_done env seen timed s e c in
        (r1 ≡ c.0.1)
        × (result ≡ c.1)
        × (e1.book_responses ≡ c.0.0)
        × (c.1 ≡ ok tt → s1 ≡ start (process_wait false) s)
        × (c.1 ≢ ok tt → s1 ≡ s)
  unfolding process_done
  process_done-fields seen timed s e ((books, r), err x) = (refl, refl, refl, λ h. cc, λ h. refl)
  process_done-fields seen timed s e ((books, r), ok _) =
      (refl, refl, refl, λ h. refl, λ h. elim (h refl) [ ])

  on_process_timer-fields :
      (micros : ℕ) (s : Session) (e : Engine) (r : R)
      → let (r', fed) = feed sink (take c_process_batch_size e.book_responses) r in
        let ((s1, (e1, r1)), result) = on_process_timer env micros (s, (e, r)) in
        (r1 ≡ r')
        × (result ≡ fed)
        × (fed ≡ ok tt
            → (e1.book_responses ≡ drop c_process_batch_size e.book_responses)
              × (s1 ≡ start (process_wait false) s))
        × (fed ≢ ok tt → s1 ≡ s)
  unfolding on_process_timer feed
  on_process_timer-fields micros s e r = elim (Bool-cases (num == 0)) [
    | inl none ↦
        let no_books : e.book_responses ≡ [] = empty_batch e.book_responses none in
        rw (no_books, on_process_timer) (refl, refl, (λ h. (refl, refl)), λ h. elim (h refl) [ ])
    | inr some ↦
        let seen : Metrics = Metrics.set_book_queue_depth (length e.book_responses) e.metrics in
        let timed : Metrics =
          Metrics.set_book_last_consumed num (Metrics.set_book_last_process_micros micros seen) in
        let fields = process_done-fields seen timed s e (consume sink num e.book_responses r) in
        let fed = consume-batch sink e.book_responses r in
        rw (some, on_process_timer)
          (
            fields.0 ∙ fed.0,
            fields.1 ∙ fed.1,
            (λ ok_fed. (fields.2 ∙ fed.2 ok_fed, fields.3 (fed.1 ∙ ok_fed))),
            λ failed. fields.4 λ ok_consumed. failed (sym fed.1 ∙ ok_consumed),
          )
  ]
    where
      num : ℕ
      num = min_ℕ c_process_batch_size (length e.book_responses)

  -- What one wait of the process timer does: it gives the first books of the queue, a batch of at
  -- most 64, to the sink, in their order. If the sink takes them all, they are off the queue and
  -- the timer is started again. If it throws, so does the handler, and no wait is started: the
  -- queue is not looked at again.
  pub on_process_timer-batch :
      (micros : ℕ) (s : Session) (e : Engine) (r : R)
      → let (r', fed) = feed sink (take c_process_batch_size e.book_responses) r in
        let ((s1, (e1, r1)), result) = on_process_timer env micros (s, (e, r)) in
        (r1 ≡ r')
        × (result ≡ fed)
        × (((fed ≡ ok tt)
              × (e1.book_responses ≡ drop c_process_batch_size e.book_responses)
              × (s1 ≡ start (process_wait false) s))
            ⊎ ((x : Error) × (fed ≡ err x) × (s1 ≡ s)))
  on_process_timer-batch micros s e r =
      let fields = on_process_timer-fields micros s e r in
      let fed = (feed sink (take c_process_batch_size e.book_responses) r).1 in
      (fields.0, fields.1, by_result fed fields.2 fields.3)
