-- ===== src/Recorder/Loop.antt =====
-- The loop of `main` in kdr_record/kdr_record.cpp, which runs what the `io_context` has, and what it
-- runs.
use kraken_data_recorder.Base.{
  ℕ, Bool, true, false, not, ◌&&◌, List, [], ◌∷◌, if◌then◌else◌, ◌==◌, Option, none, some, Result,
  ok, err, Error,
}
use mathlib.Core.Option
use kraken_data_recorder.Engine.{
  Environment, World, callbacks, new_engine, on_metrics_timer, on_ping_timer, on_process_timer,
  on_first_process_timer, stop_processing,
}
use kraken_data_recorder.Session.{
  Operation, new_session, start_processing, async_resolve, async_connect, async_ssl_handshake,
  async_handshake, async_read, metrics_wait, ping_wait, process_wait,
}
use kraken_data_recorder.Session.Chain.{Completion, operation_of, handle}

-- What `run_one` can run: a handler of the connection, the handler of a timer (the first wait of
-- the process timer has its own), or `signal_handler`.
pub data Event : Type 0 where
  completed : Completion → Event
  metrics_timer : Event
  ping_timer : Event
  process_timer : Bool → ℕ → Event
  interrupted : Event

-- Operations are told apart by number.
abbrev pub number_of : Operation → ℕ
number_of async_resolve = 0
number_of async_connect = 1
number_of async_ssl_handshake = 2
number_of async_handshake = 3
number_of async_read = 4
number_of metrics_wait = 5
number_of ping_wait = 6
number_of (process_wait false) = 7
number_of (process_wait true) = 8

-- The pending operations without one that is done, if it was among them.
unfoldable pub take_off : Operation → List Operation → Option (List Operation)
take_off operation [] = none
take_off operation (other ∷ pending) =
    if number_of operation == number_of other
    then some pending
    else Option.map (◌∷◌ other) (take_off operation pending)

-- How the loop has ended, if it has: it waits for the next event, it has left for
-- `stop_processing`, or an exception of a handler has left `main`.
pub data Ending : Type 0 where
  waiting : Ending
  stopped : Ending
  terminated : Error → Ending

module _ {R : Type 0} (env : Environment R) where
  -- `shutting_down`, and the engine with its session and its sink.
  abbrev pub Program : Type 0
  Program = Bool × World env

  -- The handler of an operation that is done, which is no longer pending when it is called. Only
  -- what was pending can be done: nothing happens otherwise.
  unfoldable pub when_pending :
      Operation
      → (World env → World env × Result (Unit {0}))
      → Program
      → Program × Result (Unit {0})
  when_pending operation handler (down, (s, er)) = elim (take_off operation s.pending) [
    | none ↦ ((down, (s, er)), ok tt)
    | some pending ↦
        let (w1, result) = handler (record s { pending = pending }, er) in ((down, w1), result)
  ]

  -- The handlers.
  unfoldable pub called : Event → World env → World env × Result (Unit {0})
  called (completed completion) w = (handle (callbacks env) completion w, ok tt)
  called metrics_timer w = (on_metrics_timer env w, ok tt)
  called ping_timer w = (on_ping_timer env w, ok tt)
  called (process_timer true micros) w = on_first_process_timer env micros w
  called (process_timer false micros) w = on_process_timer env micros w
  called interrupted w = (w, ok tt)

  unfoldable pub run_one : Event → Program → Program × Result (Unit {0})
  unfolding when_pending called
  run_one (completed completion) p =
      when_pending (operation_of completion) (called (completed completion)) p
  run_one metrics_timer p = when_pending metrics_wait (called metrics_timer) p
  run_one ping_timer p = when_pending ping_wait (called ping_timer) p
  run_one (process_timer first micros) p =
      when_pending (process_wait first) (called (process_timer first micros)) p
  run_one interrupted (down, w) = ((true, w), ok tt)

  -- What follows an event: the loop again, unless its handler has thrown.
  abbrev pub after_event : Program × Result (Unit {0}) → Program × Ending → Program × Ending
  after_event (p, err x) rest = (p, terminated x)
  after_event (p, ok _) rest = rest

  -- The loop, given what happens, in order.
  unfoldable pub run : List Event → Program → Program × Ending
  unfolding run_one
  run [] (down, w) =
      if not down && w.0.keep_processing
      then ((down, w), waiting)
      else ((down, stop_processing env w), stopped)
  run (event ∷ events) (down, w) =
      let (p1, result) = run_one event (down, w) in
      let rest = run events p1 in
      if not down && w.0.keep_processing
      then after_event (p1, result) rest
      else ((down, stop_processing env w), stopped)

  -- The program when the loop is reached.
  abbrev pub started : R → Program
  started r = (false, (start_processing new_session, (new_engine, r)))
