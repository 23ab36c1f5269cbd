-- ===== src/Recorder/Numbered.antt =====
-- The ids of the requests, along the loop of `main`.
use kraken_data_recorder.Base.{
  ℕ, Bool, true, false, not, List, [], length, ◌==◌, inl, inr, arith, Bool-cases,
}
use kraken_data_recorder.Engine
use kraken_data_recorder.Engine.{
  Environment, World, Engine, callbacks, connected_cb, handle_msg, on_metrics_timer, on_ping_timer,
}
use kraken_data_recorder.Engine.Numbered.{
  IsNumberedWorld, nothing, handle_msg-IsNumbered, on_ping_timer-IsNumbered,
  on_process_timer-IsNumbered, on_first_process_timer-IsNumbered,
}
use kraken_data_recorder.Session
use kraken_data_recorder.Session.{
  Session, on_resolve, on_connect, on_ssl_handshake, on_handshake, on_read, after_recv, fail_if,
  fail, start, stop_processing, start_processing,
}
use kraken_data_recorder.Session.Chain.{
  Completion, resolved, connected, ssl_shaken, shaken, filled, handle, fill,
}
use kraken_data_recorder.Recorder.Keeps.{run-keeps}
use kraken_data_recorder.Recorder.Loop.{
  Event, completed, metrics_timer, ping_timer, process_timer, interrupted, called, run, started,
}

module _ {R : Type 0} (env : Environment R) where
  after_recv-IsNumbered :
      (c : World env × Bool)
      → IsNumberedWorld env c.0
      → IsNumberedWorld env (after_recv (callbacks env) c)
  unfolding after_recv stop_processing start
  after_recv-IsNumbered ((s, er), true) h = elim (Bool-cases s.keep_processing) [
    | inl on ↦ rw on h
    | inr off ↦ rw off h
  ]
  after_recv-IsNumbered ((s, er), false) h = h

  fail_if-IsNumbered :
      (ec : Bool) (s : Session) (e : Engine) (r : R)
      → IsNumberedWorld env (s, (e, r))
      → IsNumberedWorld env (fail_if ec s, (e, r))
  unfolding fail_if fail
  fail_if-IsNumbered ec s e r h = ground (arith, h)

  on_read-IsNumbered :
      (ec : Bool) (size : ℕ) (s : Session) (e : Engine) (r : R)
      → IsNumberedWorld env (s, (e, r))
      → IsNumberedWorld env (on_read (callbacks env) ec size (s, (e, r)))
  unfolding on_read stop_processing
  on_read-IsNumbered ec size s e r h =
      let failed = fail_if-IsNumbered ec s e r h in
      elim (Bool-cases (length s.read_buffer == size)) [
        | inl same ↦ elim (Bool-cases (size == 0)) [
          | inl empty ↦ rw (same, empty, on_read) failed
          | inr nonzero ↦
              let t : Session = record (fail_if ec s) {
                read_msg_str = s.read_buffer;
                read_buffer = [];
              } in
              rw (same, nonzero, on_read)
                (after_recv-IsNumbered (handle_msg env s.read_buffer (t, (e, r)))
                  (handle_msg-IsNumbered env s.read_buffer t e r failed))
        ]
        | inr other ↦ rw (other, on_read) failed
      ]

  handle-IsNumbered :
      (completion : Completion) (s : Session) (e : Engine) (r : R)
      → IsNumberedWorld env (s, (e, r))
      → IsNumberedWorld env (handle (callbacks env) completion (s, (e, r)))
  unfolding handle on_resolve on_connect on_ssl_handshake on_handshake connected_cb start
  handle-IsNumbered (resolved ec) s e r h = fail_if-IsNumbered ec s e r h
  handle-IsNumbered (connected ec named) s e r h =
      fail_if-IsNumbered (not named) (fail_if ec s) e r (fail_if-IsNumbered ec s e r h)
  handle-IsNumbered (ssl_shaken ec) s e r h = fail_if-IsNumbered ec s e r h
  handle-IsNumbered (shaken ec) s e r h = fail_if-IsNumbered ec s e r h
  handle-IsNumbered (filled ec bytes size) s e r h = on_read-IsNumbered ec size (fill bytes s) e r h

  called-IsNumbered :
      (event : Event) (s : Session) (e : Engine) (r : R)
      → IsNumberedWorld env (s, (e, r))
      → IsNumberedWorld env (called env event (s, (e, r))).0
  unfolding called on_metrics_timer start
  called-IsNumbered (completed completion) s e r h = handle-IsNumbered completion s e r h
  called-IsNumbered metrics_timer s e r h = h
  called-IsNumbered ping_timer s e r h = on_ping_timer-IsNumbered env s e r h
  called-IsNumbered (process_timer true micros) s e r h =
      on_first_process_timer-IsNumbered env micros s e r h
  called-IsNumbered (process_timer false micros) s e r h =
      on_process_timer-IsNumbered env micros s e r h
  called-IsNumbered interrupted s e r h = h

  -- In every state that the program reaches from its start, what it has handed to the websocket is
  -- the text of its requests, each with its own id: the pings, the requests for the instruments,
  -- for books and for trades each have the ids 1, 2, 3 and so on in the order in which they were
  -- sent, the last one being the one that the engine keeps; books and trades are only asked for if
  -- the configuration captures them, and books at its depth.
  pub run-IsNumbered :
      (events : List Event) (r : R) → IsNumberedWorld env (run env events (started env r)).0.1
  unfolding start_processing start Engine.stop_processing Session.stop_processing
  run-IsNumbered events r =
      run-keeps env (IsNumberedWorld env)
        (λ event s er pending h.
          called-IsNumbered event (record s { pending = pending }) er.0 er.1 h)
        (λ w h. h) events _ _ nothing
