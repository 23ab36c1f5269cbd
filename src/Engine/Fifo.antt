-- ===== src/Engine/Fifo.antt =====
-- The books that the sink has been given, and those that are still in the queue.
use kraken_data_recorder.Base.{
  ℕ, zero, suc, ◌≤◌, ◌==◌, List, [], ◌∷◌, ◌++◌, append_assoc, length, Result, Error, ok, err,
  Ensures-unit, All-unit, ◌≡◌, inl, inr, refl, sym, ap, ◌∙◌, arith, Bool-cases, Result-cases,
}
use kraken_data_recorder.Decimal.{Bytes}
use kraken_data_recorder.Messages.{Book, Instrument, Trades}
use kraken_data_recorder.Metrics.{Metrics}
use kraken_data_recorder.Session.{Session}
use kraken_data_recorder.Engine.{
  Environment, Engine, World, handle_msg, consume, after_accept, min_ℕ, c_process_batch_size,
  process_done, on_process_timer, on_first_process_timer,
}
use kraken_data_recorder.Engine.Queue.{min_ℕ-le}
use kraken_data_recorder.Engine.Arrivals.{book_of, handle_msg-book_of}
use kraken_data_recorder.Engine.Keeps.{Hears, handle_msg-IsKept}

-- `P books r`: the sink has taken these books, in this order, and no other, to come to `r`.
pub record Tracks {R : Type 0} (env : Environment R) (P : List Book → R → Type 0) : Type 0 where
  pub instrument :
      (books : List Book) (response : Instrument) (r : R)
      → P books r
      → P books (env.sink.accept_instrument response r).0
  pub trades :
      (books : List Book) (response : Trades) (r : R)
      → P books r
      → P books (env.sink.accept_trades response r).0
  pub book :
      (books : List Book) (response : Book) (r : R)
      → (env.sink.accept_book response r).1 ≡ ok tt
      → P books r
      → P (books ++ (response ∷ [])) (env.sink.accept_book response r).0

module _ {R : Type 0} (env : Environment R) (P : List Book → R → Type 0)
    (tracks : Tracks env P) where
  open env use {sink, parser}

  -- The sink has taken the first of these books, and the others are in the queue.
  pub record IsQueued (books queue : List Book) (r : R) : Type 0 where
    pub taken : List Book
    pub tracked : P taken r
    pub split : books ≡ taken ++ queue

  -- The sink has taken the first of these books and thrown at the next one, which is still at the
  -- front of the queue.
  pub record IsStuck (books queue : List Book) (r : R) (x : Error) : Type 0 where
    pub taken : List Book
    pub front : Book
    pub behind : List Book
    pub before : R
    pub tracked : P taken before
    pub thrown : sink.accept_book front before ≡ (r, err x)
    pub at_front : queue ≡ front ∷ behind
    pub split : books ≡ taken ++ queue

  abbrev pub IsFed : List Book → List Book → R → Result (Unit {0}) → Type 0
  IsFed books queue r (ok _) = IsQueued books queue r
  IsFed books queue r (err x) = IsStuck books queue r x

  after_accept-IsFed :
      (books : List Book) (book : Book) (queue : List Book) (r : R)
      (accepted : R × Result (Unit {0})) (rest : (List Book × R) × Result (Unit {0}))
      → IsQueued books (book ∷ queue) r
      → sink.accept_book book r ≡ accepted
      → (IsQueued books queue accepted.0 → IsFed books rest.0.0 rest.0.1 rest.1)
      → let c = after_accept sink book queue accepted.0 rest accepted.1 in
        IsFed books c.0.0 c.0.1 c.1
  after_accept-IsFed books book queue r (r1, err x) rest h e later = record {
    taken = h.taken;
    front = book;
    behind = queue;
    before = r;
    tracked = h.tracked;
    thrown = e;
    at_front = refl;
    split = h.split;
  }
  after_accept-IsFed books book queue r (r1, ok _) rest h e later = later record {
    taken = h.taken ++ (book ∷ []);
    tracked = rw e at (tracks.book h.taken book r (ap (λ f. f.1) e) h.tracked);
    split = h.split ∙ sym (append_assoc h.taken (book ∷ []) queue);
  }

  consume-IsFed :
      (n : ℕ) (books queue : List Book) (r : R)
      → n ≤ length queue
      → IsQueued books queue r
      → let c = consume sink n queue r in IsFed books c.0.0 c.0.1 c.1
  unfolding consume
  consume-IsFed zero books queue r short h = h
  consume-IsFed (suc n) books [] r short h = ground arith
  consume-IsFed (suc n) books (book ∷ queue) r short h =
      let rest = consume-IsFed n books queue (sink.accept_book book r).0 (omega arith) in
      after_accept-IsFed books book queue r (sink.accept_book book r)
        (consume sink n queue (sink.accept_book book r).0) h refl rest

  -- The same of an engine and what a handler of it has come to.
  abbrev pub IsFedWorld : List Book → World env × Result (Unit {0}) → Type 0
  IsFedWorld books ((s, (e, r)), result) = IsFed books e.book_responses r result

  process_done-IsFed :
      (books : List Book) (seen timed : Metrics) (s : Session) (e : Engine)
      (c : (List Book × R) × Result (Unit {0}))
      → IsFed books c.0.0 c.0.1 c.1
      → IsFedWorld books (process_done env seen timed s e c)
  unfolding process_done
  process_done-IsFed books seen timed s e ((queue, r), err x) h = h
  process_done-IsFed books seen timed s e ((queue, r), ok _) h = h

  pub on_process_timer-IsFed :
      (books : List Book) (micros : ℕ) (s : Session) (e : Engine) (r : R)
      → IsQueued books e.book_responses r
      → IsFedWorld books (on_process_timer env micros (s, (e, r)))
  unfolding on_process_timer
  on_process_timer-IsFed books micros s e r h =
      let num = min_ℕ c_process_batch_size (length e.book_responses) in
      elim (Bool-cases (num == 0)) [
        | inl none ↦ rw (none, on_process_timer) h
        | inr some ↦
            rw (some, on_process_timer)
              (process_done-IsFed books _ _ s e _
                (consume-IsFed num books e.book_responses r (min_ℕ-le _ _) h))
      ]

  pub on_first_process_timer-IsFed :
      (books : List Book) (micros : ℕ) (s : Session) (e : Engine) (r : R)
      → IsQueued books e.book_responses r
      → IsFedWorld books (on_first_process_timer env micros (s, (e, r)))
  unfolding on_first_process_timer
  on_first_process_timer-IsFed books micros s e r h =
      let fed = on_process_timer-IsFed books micros s e r h in
      elim (Result-cases (on_process_timer env micros (s, (e, r))).1) [
        | inl (x, thrown) ↦ rw (thrown, on_first_process_timer) (rw thrown at fed)
        | inr (done, processed) ↦ rw (processed, on_first_process_timer) (rw processed at fed)
      ]

  hears : (taken : List Book) → Hears env (P taken) (λ book. Unit {0})
  hears taken = record {
    instrument = tracks.instrument taken;
    trades = tracks.trades taken;
    parsed = λ doc. Ensures-unit (parser.book doc);
  }

  -- A message adds the book that it is to the books.
  pub handle_msg-IsQueued :
      (books : List Book) (msg : Bytes) (s : Session) (e : Engine) (r : R)
      → IsQueued books e.book_responses r
      → let (s1, (e1, r1)) = (handle_msg env msg (s, (e, r))).0 in
        IsQueued (books ++ book_of env msg) e1.book_responses r1
  handle_msg-IsQueued books msg s e r h = record {
    taken = h.taken;
    tracked =
        (handle_msg-IsKept env (P h.taken) (λ book. Unit {0}) (hears h.taken) msg s e r
          (All-unit e.book_responses, h.tracked)).1;
    split =
        ap (λ l. l ++ book_of env msg) h.split
        ∙ append_assoc h.taken e.book_responses (book_of env msg)
        ∙ ap (◌++◌ h.taken) (sym (handle_msg-book_of env msg s e r));
  }
