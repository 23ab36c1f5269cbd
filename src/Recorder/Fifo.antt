-- ===== src/Recorder/Fifo.antt =====
-- The books along the loop of `main`: first in, first out, and none is lost.
use kraken_data_recorder.Base.{
  Bool, not, ◌&&◌, List, [], ◌∷◌, ◌++◌, append_assoc, append-nil, Result, ok, err, ◌≡◌, inl, inr,
  refl, sym, Bool-cases, Option-cases,
}
use kraken_data_recorder.Messages.{Book}
use kraken_data_recorder.Session
use kraken_data_recorder.Session.{
  Session, Operation, async_read, metrics_wait, ping_wait, process_wait, on_read, after_recv,
  fail_if, stop_processing, start, on_handshake,
}
use kraken_data_recorder.Session.Chain.{resolved, connected, ssl_shaken, shaken, filled}
use kraken_data_recorder.Engine
use kraken_data_recorder.Engine.{
  Environment, Engine, World, handle_msg, callbacks, connected_cb, on_metrics_timer, on_ping_timer,
}
use kraken_data_recorder.Engine.Fifo.{Tracks, IsQueued, IsStuck}
use kraken_data_recorder.Recorder.Loop.{
  Event, completed, metrics_timer, ping_timer, process_timer, interrupted, Ending, waiting, stopped,
  terminated, Program, take_off, when_pending, called, run_one, after_event, run,
}
use kraken_data_recorder.Recorder.Received.{
  brought, arrives, unless_thrown, received, Queued, Fed, nothing_more, called-Fed,
}

module _ {R : Type 0} (env : Environment R) (P : List Book → R → Type 0)
    (tracks : Tracks env P) where
  when_pending-Fed :
      (books : List Book) (operation : Operation)
      (handler : World env → World env × Result (Unit {0})) (down : Bool) (s : Session) (e : Engine)
      (r : R)
      → Queued env P tracks books (s, (e, r))
      → ((pending : List Operation)
          → Fed env P tracks (books ++ []) (handler (record s { pending = pending }, (e, r))))
      → let (p, result) = when_pending env operation handler (down, (s, (e, r))) in
        Fed env P tracks (books ++ []) (p.1, result)
  unfolding when_pending
  when_pending-Fed books operation handler down s e r h after =
      elim (Option-cases (take_off operation s.pending)) [
        | inl absent ↦ rw (absent, when_pending) (nothing_more env P tracks books (s, (e, r)) h)
        | inr (pending, due) ↦ rw (due, when_pending) (after pending)
      ]

  arrives-quiet :
      (event : Event) (s : Session) → brought env event s ≡ [] → arrives env event s ≡ []
  unfolding arrives
  arrives-quiet event s quiet = elim (Option-cases (take_off async_read s.pending)) [
    | inl absent ↦ rw (absent, arrives) refl
    | inr (pending, due) ↦ rw (due, arrives) quiet
  ]

  -- An event that brings no book.
  quiet-Fed :
      (books : List Book) (event : Event) (operation : Operation) (down : Bool) (s : Session)
      (e : Engine) (r : R)
      → ((t : Session) → brought env event t ≡ [])
      → Queued env P tracks books (s, (e, r))
      → let (p, result) = when_pending env operation (called env event) (down, (s, (e, r))) in
        Fed env P tracks (books ++ arrives env event s) (p.1, result)
  quiet-Fed books event operation down s e r quiet h = rw (arrives-quiet event s (quiet s)) (
      when_pending-Fed books operation (called env event) down s e r h λ pending.
        let t = record s { pending = pending } in
        rw (quiet t) at (called-Fed env P tracks books event t e r h))

  run_one-Fed :
      (books : List Book) (event : Event) (down : Bool) (s : Session) (e : Engine) (r : R)
      → Queued env P tracks books (s, (e, r))
      → let (p, result) = run_one env event (down, (s, (e, r))) in
        Fed env P tracks (books ++ arrives env event s) (p.1, result)
  unfolding run_one arrives when_pending
  run_one-Fed books (completed (resolved ec)) down s e r h =
      quiet-Fed books (completed (resolved ec)) _ down s e r (λ t. refl) h
  run_one-Fed books (completed (connected ec named)) down s e r h =
      quiet-Fed books (completed (connected ec named)) _ down s e r (λ t. refl) h
  run_one-Fed books (completed (ssl_shaken ec)) down s e r h =
      quiet-Fed books (completed (ssl_shaken ec)) _ down s e r (λ t. refl) h
  run_one-Fed books (completed (shaken ec)) down s e r h =
      quiet-Fed books (completed (shaken ec)) _ down s e r (λ t. refl) h
  run_one-Fed books (completed (filled ec bytes size)) down s e r h =
      elim (Option-cases (take_off async_read s.pending)) [
        | inl absent ↦
            rw (absent, run_one, arrives, when_pending)
              (nothing_more env P tracks books (s, (e, r)) h)
        | inr (pending, due) ↦
            rw (due, run_one, arrives, when_pending)
              (called-Fed env P tracks books (completed (filled ec bytes size))
                (record s { pending = pending }) e r h)
      ]
  run_one-Fed books metrics_timer down s e r h =
      quiet-Fed books metrics_timer _ down s e r (λ t. refl) h
  run_one-Fed books ping_timer down s e r h = quiet-Fed books ping_timer _ down s e r (λ t. refl) h
  run_one-Fed books (process_timer first micros) down s e r h =
      quiet-Fed books (process_timer first micros) _ down s e r (λ t. refl) h
  run_one-Fed books interrupted down s e r h =
      rw (arrives-quiet interrupted s refl) (nothing_more env P tracks books (s, (e, r)) h)

  -- Where these books are when the loop has come to its end, or waits: the sink has taken the first
  -- ones, in order, and the others are in the queue. After an exception, the sink has thrown at the
  -- one at the front of the queue.
  abbrev pub IsSettled : List Book → Program env × Ending → Type 0
  IsSettled books ((down, (s, (e, r))), waiting) = IsQueued env P tracks books e.book_responses r
  IsSettled books ((down, (s, (e, r))), stopped) = IsQueued env P tracks books e.book_responses r
  IsSettled books ((down, (s, (e, r))), terminated x) =
      IsStuck env P tracks books e.book_responses r x

  after_event-IsSettled :
      (books arrived later : List Book) (p : Program env) (result : Result (Unit {0}))
      (rest : Program env × Ending)
      → Fed env P tracks (books ++ arrived) (p.1, result)
      → (Queued env P tracks (books ++ arrived) p.1 → IsSettled ((books ++ arrived) ++ later) rest)
      → IsSettled
          (books ++ (arrived ++ unless_thrown env result later))
          (after_event env (p, result) rest)
  after_event-IsSettled books arrived later p (err x) rest h settled = rw (append-nil arrived) h
  after_event-IsSettled books arrived later p (ok _) rest h settled =
      rw (sym (append_assoc books arrived later)) (settled h)

  -- Of the books that arrive, each message of the channel for books that can be parsed, none is lost,
  -- doubled or overtaken: at every time, the sink has taken the first of them, in the order of their
  -- arrival, and the others are in the queue, in the same order; if an exception has ended the
  -- program, the sink has thrown at the book at the front of the queue. `books` are those that had
  -- arrived before.
  pub run-IsSettled :
      (books : List Book) (events : List Event) (down : Bool) (s : Session) (e : Engine) (r : R)
      → IsQueued env P tracks books e.book_responses r
      → IsSettled
          (books ++ received env events (down, (s, (e, r))))
          (run env events (down, (s, (e, r))))
  unfolding run received Engine.stop_processing Session.stop_processing
  run-IsSettled books [] down s e r h =
      let same = nothing_more env P tracks books (s, (e, r)) h in
      elim (Bool-cases (not down && s.keep_processing)) [
        | inl on ↦ rw on same
        | inr off ↦ rw off same
      ]
  run-IsSettled books (event ∷ events) down s e r h =
      let ((down1, (s1, (e1, r1))), result) = run_one env event (down, (s, (e, r))) in
      let p1 : Program env = (down1, (s1, (e1, r1))) in
      let arrived = arrives env event s in
      let fed = run_one-Fed books event down s e r h in
      let rest = run-IsSettled (books ++ arrived) events down1 s1 e1 r1 in
      elim (Bool-cases (not down && s.keep_processing)) [
        | inl on ↦ rw on (
            after_event-IsSettled books arrived (received env events p1) p1 result
              (run env events p1) fed rest)
        | inr off ↦ rw off (nothing_more env P tracks books (s, (e, r)) h)
      ]
