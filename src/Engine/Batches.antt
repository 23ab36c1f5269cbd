-- ===== src/Engine/Batches.antt =====
-- Predicates on what the sink keeps, along the waits of the process timer.
use kraken_data_recorder.Base.{
  ℕ, zero, suc, List, [], ◌∷◌, Result, ok, err, inl, inr, Bool-cases, Result-cases, length, ◌==◌,
  All,
}
use kraken_data_recorder.Messages.{Book}
use kraken_data_recorder.Metrics.{Metrics}
use kraken_data_recorder.Session.{Session}
use kraken_data_recorder.Engine.{
  Environment, Engine, consume, after_accept, on_process_timer, on_first_process_timer,
  process_done, min_ℕ, c_process_batch_size,
}
use kraken_data_recorder.Engine.Keeps.{Keeps, heard, IsKept}

module _ {R : Type 0} (env : Environment R) (P : R → Type 0) (Q : Book → Type 0)
    (keeps : Keeps env P Q) where
  open env use {config, parser, sink}

  consume-IsKept :
      (n : ℕ) (books : List Book) (r : R)
      → All Q books
      → P r
      → let ((left, r1), result) = consume sink n books r in All Q left × P r1
  unfolding consume
  consume-IsKept zero books r q p = (q, p)
  consume-IsKept (suc n) [] r q p = (q, p)
  consume-IsKept (suc n) (book ∷ books) r q p =
      let after = keeps.book book r q.0 p in
      let rest = consume-IsKept n books (sink.accept_book book r).0 q.1 after in
      by_accepted (consume sink n books (sink.accept_book book r).0) (sink.accept_book book r).1
        after rest
    where
      by_accepted :
          (rest : (List Book × R) × Result (Unit {0})) {r1 : R} (accepted : Result (Unit {0}))
          → P r1
          → All Q rest.0.0 × P rest.0.1
          → let ((left, r2), result) = after_accept sink book books r1 rest accepted in
            All Q left × P r2
      by_accepted rest (err x) after kept = (q, after)
      by_accepted rest (ok _) after kept = kept

  process_done-IsKept :
      (seen timed : Metrics) (s : Session) (e : Engine) (c : (List Book × R) × Result (Unit {0}))
      → All Q c.0.0 × P c.0.1
      → IsKept env P Q (heard keeps) (process_done env seen timed s e c).0
  unfolding process_done
  process_done-IsKept seen timed s e ((books, r), err x) h = h
  process_done-IsKept seen timed s e ((books, r), ok _) h = h

  pub on_process_timer-IsKept :
      (micros : ℕ) (s : Session) (e : Engine) (r : R)
      → IsKept env P Q (heard keeps) (s, (e, r))
      → IsKept env P Q (heard keeps) (on_process_timer env micros (s, (e, r))).0
  unfolding on_process_timer
  on_process_timer-IsKept micros s e r h =
      let num = min_ℕ c_process_batch_size (length e.book_responses) in
      elim (Bool-cases (num == 0)) [
        | inl none ↦ rw (none, on_process_timer) h
        | inr some ↦
            rw (some, on_process_timer)
              (process_done-IsKept _ _ s e _ (consume-IsKept num e.book_responses r h.0 h.1))
      ]

  pub on_first_process_timer-IsKept :
      (micros : ℕ) (s : Session) (e : Engine) (r : R)
      → IsKept env P Q (heard keeps) (s, (e, r))
      → IsKept env P Q (heard keeps) (on_first_process_timer env micros (s, (e, r))).0
  unfolding on_first_process_timer
  on_first_process_timer-IsKept micros s e r h =
      let kept = on_process_timer-IsKept micros s e r h in
      elim (Result-cases (on_process_timer env micros (s, (e, r))).1) [
        | inl (x, thrown) ↦ rw (thrown, on_first_process_timer) kept
        | inr (done, processed) ↦ rw (processed, on_first_process_timer) kept
      ]
