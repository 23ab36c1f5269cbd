-- ===== src/Recorder/Keeps.antt =====
-- Predicates on what the sink keeps, along the loop of `main`.
use kraken_data_recorder.Base.{
  ℕ, Bool, true, false, not, ◌&&◌, List, [], ◌∷◌, Result, ok, err, ◌==◌, length, Bool-cases,
  Option-cases, some, ◌≡◌, inl, inr,
}
use kraken_data_recorder.Messages.{Book}
use kraken_data_recorder.Session.{
  Session, Operation, on_handshake, on_read, after_recv, fail_if, stop_processing,
}
use kraken_data_recorder.Session.Chain.{
  Completion, resolved, connected, ssl_shaken, shaken, filled, handle, fill,
}
use kraken_data_recorder.Engine
use kraken_data_recorder.Engine.{
  Environment, World, Engine, callbacks, connected_cb, handle_msg, on_metrics_timer, on_ping_timer,
}
use kraken_data_recorder.Engine.Keeps.{Keeps, heard, IsKept, handle_msg-IsKept}
use kraken_data_recorder.Engine.Batches.{on_process_timer-IsKept, on_first_process_timer-IsKept}
use kraken_data_recorder.Recorder.Loop.{
  called, take_off, when_pending, Event, completed, metrics_timer, ping_timer, process_timer,
  interrupted, Program, run_one, run, after_event, Ending,
}

module _ {R : Type 0} (env : Environment R) where
  -- What holds before an event and after its handler, if that is called, holds after the event.
  pub when_pending-keeps :
      (D : World env → Type 0) (operation : Operation)
      (handler : World env → World env × Result (Unit {0})) (down : Bool) (s : Session)
      (er : Engine × R)
      → D (s, er)
      → ((pending : List Operation)
          → take_off operation s.pending ≡ some pending
          → D (handler (record s { pending = pending }, er)).0)
      → D (when_pending env operation handler (down, (s, er))).0.1
  unfolding when_pending
  when_pending-keeps D operation handler down s er h after =
      elim (Option-cases (take_off operation s.pending)) [
        | inl e ↦ rw (e, when_pending) h
        | inr (pending, e) ↦ rw (e, when_pending) (after pending e)
      ]

  run_one-keeps :
      (D : World env → Type 0) (event : Event) (down : Bool) (s : Session) (er : Engine × R)
      → D (s, er)
      → ((pending : List Operation) → D (called env event (record s { pending = pending }, er)).0)
      → D (run_one env event (down, (s, er))).0.1
  unfolding run_one
  run_one-keeps D (completed completion) down s er h after =
      when_pending-keeps D _ (called env (completed completion)) down s er h
        λ pending e. after pending
  run_one-keeps D metrics_timer down s er h after =
      when_pending-keeps D _ (called env metrics_timer) down s er h λ pending e. after pending
  run_one-keeps D ping_timer down s er h after =
      when_pending-keeps D _ (called env ping_timer) down s er h λ pending e. after pending
  run_one-keeps D (process_timer first micros) down s er h after =
      when_pending-keeps D _ (called env (process_timer first micros)) down s er h
        λ pending e. after pending
  run_one-keeps D interrupted down s er h after = h

  after_event-keeps :
      (D : World env → Type 0) (event : Program env × Result (Unit {0}))
      (rest : Program env × Ending)
      → D event.0.1
      → D rest.0.1
      → D (after_event env event rest).0.1
  after_event-keeps D (p, err x) rest h later = h
  after_event-keeps D (p, ok _) rest h later = later

  -- What every handler keeps, whatever is still pending, and what stopping keeps, holds along the
  -- loop.
  pub run-keeps :
      (D : World env → Type 0)
      → ((event : Event) (s : Session) (er : Engine × R) (pending : List Operation)
          → D (s, er)
          → D (called env event (record s { pending = pending }, er)).0)
      → ((w : World env) → D w → D (Engine.stop_processing env w))
      → (events : List Event) (down : Bool) (w : World env) → D w
      → D (run env events (down, w)).0.1
  unfolding run
  run-keeps D handled ended [] down w h = elim (Bool-cases (not down && w.0.keep_processing)) [
    | inl on ↦ rw on h
    | inr off ↦ rw off (ended w h)
  ]
  run-keeps D handled ended (event ∷ events) down w h =
      let (p1, result) = run_one env event (down, w) in
      let kept = run_one-keeps D event down w.0 w.1 h λ pending. handled event w.0 w.1 pending h in
      let rest = run-keeps D handled ended events p1.0 p1.1 kept in
      elim (Bool-cases (not down && w.0.keep_processing)) [
        | inl on ↦
            rw on (after_event-keeps D (run_one env event (down, w)) (run env events p1) kept rest)
        | inr off ↦ rw off (ended w h)
      ]

module _ {R : Type 0} (env : Environment R) (P : R → Type 0) (Q : Book → Type 0)
    (keeps : Keeps env P Q) where
  abbrev Kept : World env → Type 0
  Kept w = IsKept env P Q (heard keeps) w

  after_recv-IsKept : (c : World env × Bool) → Kept c.0 → Kept (after_recv (callbacks env) c)
  unfolding after_recv stop_processing
  after_recv-IsKept ((s, er), true) h = elim (Bool-cases s.keep_processing) [
    | inl on ↦ rw on h
    | inr off ↦ rw off h
  ]
  after_recv-IsKept ((s, er), false) h = h

  on_read-IsKept :
      (ec : Bool) (size : ℕ) (s : Session) (e : Engine) (r : R)
      → Kept (s, (e, r))
      → Kept (on_read (callbacks env) ec size (s, (e, r)))
  unfolding on_read stop_processing
  on_read-IsKept ec size s e r h = elim (Bool-cases (length s.read_buffer == size)) [
    | inl same ↦ elim (Bool-cases (size == 0)) [
      | inl empty ↦ rw (same, empty, on_read) h
      | inr nonzero ↦
          let t : Session = record (fail_if ec s) {
            read_msg_str = s.read_buffer;
            read_buffer = [];
          } in
          rw (same, nonzero, on_read)
            (after_recv-IsKept (handle_msg env s.read_buffer (t, (e, r)))
              (handle_msg-IsKept env P Q (heard keeps) s.read_buffer t e r h))
    ]
    | inr other ↦ rw (other, on_read) h
  ]

  handle-IsKept :
      (completion : Completion) (s : Session) (e : Engine) (r : R)
      → Kept (s, (e, r))
      → Kept (handle (callbacks env) completion (s, (e, r)))
  unfolding handle on_handshake connected_cb
  handle-IsKept (resolved ec) s e r h = h
  handle-IsKept (connected ec named) s e r h = h
  handle-IsKept (ssl_shaken ec) s e r h = h
  handle-IsKept (shaken ec) s e r h = h
  handle-IsKept (filled ec bytes size) s e r h = on_read-IsKept ec size (fill bytes s) e r h

  called-IsKept :
      (event : Event) (s : Session) (e : Engine) (r : R)
      → Kept (s, (e, r))
      → Kept (called env event (s, (e, r))).0
  unfolding called on_metrics_timer on_ping_timer
  called-IsKept (completed completion) s e r h = handle-IsKept completion s e r h
  called-IsKept metrics_timer s e r h = h
  called-IsKept ping_timer s e r h = h
  called-IsKept (process_timer true micros) s e r h =
      on_first_process_timer-IsKept env P Q keeps micros s e r h
  called-IsKept (process_timer false micros) s e r h =
      on_process_timer-IsKept env P Q keeps micros s e r h
  called-IsKept interrupted s e r h = h

  pub run-IsKept :
      (events : List Event) (down : Bool) (w : World env)
      → Kept w
      → Kept (run env events (down, w)).0.1
  unfolding Engine.stop_processing
  run-IsKept =
      run-keeps env Kept
        (λ event s er pending h. called-IsKept event (record s { pending = pending }) er.0 er.1 h)
        λ w h. h
