-- ===== src/Recorder/Received.antt =====
-- The books that arrive along the loop of `main`, and where they are.
use kraken_data_recorder.Base.{
  ℕ, Bool, true, false, not, ◌&&◌, ◌==◌, List, [], ◌∷◌, ◌++◌, append-nil, length, none, some,
  Result, ok, err, if◌then◌else◌, inl, inr, Bool-cases,
}
use kraken_data_recorder.Decimal.{Bytes}
use kraken_data_recorder.Messages.{Book}
use kraken_data_recorder.Session.{
  Session, async_read, on_read, after_recv, fail_if, stop_processing, start, on_handshake,
}
use kraken_data_recorder.Session.Chain.{
  resolved, connected, ssl_shaken, shaken, filled, handle, fill,
}
use kraken_data_recorder.Engine.{
  Environment, Engine, World, handle_msg, callbacks, connected_cb, on_metrics_timer, on_ping_timer,
}
use kraken_data_recorder.Engine.Arrivals.{book_of}
use kraken_data_recorder.Engine.Fifo.{
  Tracks, IsQueued, IsFedWorld, on_process_timer-IsFed, on_first_process_timer-IsFed,
  handle_msg-IsQueued,
}
use kraken_data_recorder.Recorder.Loop.{
  Event, completed, metrics_timer, ping_timer, process_timer, interrupted, Program, take_off,
  called, run_one,
}

module _ {R : Type 0} (env : Environment R) where
  -- The book that a read brings, if its message is one: a message of the size that is reported,
  -- which is not zero.
  unfoldable pub read_book : Bytes → ℕ → List Book
  read_book buffer size =
      if length buffer == size then (if size == 0 then [] else book_of env buffer) else []

  abbrev pub brought : Event → Session → List Book
  brought (completed (filled ec bytes size)) s = read_book (s.read_buffer ++ bytes) size
  brought (completed (resolved ec)) s = []
  brought (completed (connected ec named)) s = []
  brought (completed (ssl_shaken ec)) s = []
  brought (completed (shaken ec)) s = []
  brought metrics_timer s = []
  brought ping_timer s = []
  brought (process_timer first micros) s = []
  brought interrupted s = []

  -- The book that an event brings, which is only one if a read is pending.
  unfoldable pub arrives : Event → Session → List Book
  arrives event s = elim (take_off async_read s.pending) [
    | none ↦ []
    | some pending ↦ brought event s
  ]

  abbrev pub unless_thrown : Result (Unit {0}) → List Book → List Book
  unless_thrown (err x) later = []
  unless_thrown (ok _) later = later

  -- The books that arrive, in order, while the loop runs.
  unfoldable pub received : List Event → Program env → List Book
  unfolding arrives
  received [] p = []
  received (event ∷ events) (down, w) =
      let (p1, result) = run_one env event (down, w) in
      let later = received events p1 in
      if not down && w.0.keep_processing
      then arrives event w.0 ++ unless_thrown result later
      else []

module _ {R : Type 0} (env : Environment R) (P : List Book → R → Type 0)
    (tracks : Tracks env P) where
  abbrev pub Queued : List Book → World env → Type 0
  Queued books (s, (e, r)) = IsQueued env P tracks books e.book_responses r

  abbrev pub Fed : List Book → World env × Result (Unit {0}) → Type 0
  Fed books w = IsFedWorld env P tracks books w

  after_recv-Queued :
      (books : List Book) (c : World env × Bool)
      → Queued books c.0
      → Queued books (after_recv (callbacks env) c)
  unfolding after_recv stop_processing start
  after_recv-Queued books ((s, er), true) h = elim (Bool-cases s.keep_processing) [
    | inl on ↦ rw on h
    | inr off ↦ rw off h
  ]
  after_recv-Queued books ((s, er), false) h = h

  pub nothing_more : (books : List Book) (w : World env) → Queued books w → Queued (books ++ []) w
  nothing_more books w h = rw (append-nil books) h

  on_read-Queued :
      (books : List Book) (ec : Bool) (size : ℕ) (s : Session) (e : Engine) (r : R)
      → Queued books (s, (e, r))
      → Queued
          (books ++ read_book env s.read_buffer size)
          (on_read (callbacks env) ec size (s, (e, r)))
  unfolding on_read stop_processing read_book
  on_read-Queued books ec size s e r h = elim (Bool-cases (length s.read_buffer == size)) [
    | inl same ↦ elim (Bool-cases (size == 0)) [
      | inl empty ↦ rw (same, empty, on_read, read_book) (rw (append-nil books) h)
      | inr nonzero ↦
          let t : Session = record (fail_if ec s) {
            read_msg_str = s.read_buffer;
            read_buffer = [];
          } in
          let got = handle_msg-IsQueued env P tracks books s.read_buffer t e r h in
          rw (same, nonzero, on_read, read_book)
            (after_recv-Queued (books ++ book_of env s.read_buffer)
              (handle_msg env s.read_buffer (t, (e, r))) got)
    ]
    | inr other ↦ rw (other, on_read, read_book) (rw (append-nil books) h)
  ]

  pub called-Fed :
      (books : List Book) (event : Event) (s : Session) (e : Engine) (r : R)
      → Queued books (s, (e, r))
      → Fed (books ++ brought env event s) (called env event (s, (e, r)))
  unfolding called handle on_metrics_timer on_ping_timer on_handshake connected_cb start
  called-Fed books (completed (resolved ec)) s e r h = nothing_more books (s, (e, r)) h
  called-Fed books (completed (connected ec named)) s e r h = nothing_more books (s, (e, r)) h
  called-Fed books (completed (ssl_shaken ec)) s e r h = nothing_more books (s, (e, r)) h
  called-Fed books (completed (shaken ec)) s e r h = nothing_more books (s, (e, r)) h
  called-Fed books (completed (filled ec bytes size)) s e r h =
      on_read-Queued books ec size (fill bytes s) e r h
  called-Fed books metrics_timer s e r h = nothing_more books (s, (e, r)) h
  called-Fed books ping_timer s e r h = nothing_more books (s, (e, r)) h
  called-Fed books (process_timer true micros) s e r h =
      on_first_process_timer-IsFed env P tracks (books ++ []) micros s e r
        (nothing_more books (s, (e, r)) h)
  called-Fed books (process_timer false micros) s e r h =
      on_process_timer-IsFed env P tracks (books ++ []) micros s e r
        (nothing_more books (s, (e, r)) h)
  called-Fed books interrupted s e r h = nothing_more books (s, (e, r)) h
