-- ===== src/Recorder/Phases.antt =====
-- Which operations are pending at the same time, along the loop of `main`.
use kraken_data_recorder.Base.{
  ℕ, ◌+◌, ◌≤◌, Bool, true, false, ◌&&◌, List, [], ◌∷◌, some, Result, ok, err, ◌≡◌, inl, inr, arith,
  Bool-cases, not,
}
use kraken_data_recorder.Engine
use kraken_data_recorder.Engine.{
  Environment, World, Engine, callbacks, connected_cb, handle_msg, on_metrics_timer, on_ping_timer,
  on_process_timer, on_first_process_timer,
}
use kraken_data_recorder.Engine.Interface.{pending-send}
use kraken_data_recorder.Session
use kraken_data_recorder.Session.{
  Session, Operation, async_read, metrics_wait, ping_wait, process_wait, start, fail_if,
  stop_processing, on_resolve, on_connect, on_ssl_handshake, on_handshake, on_read, after_recv,
  start_processing, new_session,
}
use kraken_data_recorder.Session.Chain.{
  Completion, resolved, connected, ssl_shaken, shaken, filled, handle, fill, pending-fail_if,
  operation_of,
}
use kraken_data_recorder.Recorder.Keeps.{when_pending-keeps}
use kraken_data_recorder.Recorder.Loop.{
  Event, completed, metrics_timer, ping_timer, process_timer, interrupted, take_off, called,
  run_one, run, Program, Ending, after_event, started,
}
use kraken_data_recorder.Recorder.Pending.{
  count, connecting, reads, metrics_waits, ping_waits, process_waits, IsCounted, counts, pending_of,
  pending-on_read, pending-on_process_timer, pending-on_first_process_timer,
}

-- At most one of the first four steps is pending, and then nothing else is; afterwards at most one
-- read, and at most one wait of each timer.
abbrev pub IsPhased : List Operation → Type 0
IsPhased pending =
    (connecting pending + reads pending ≤ 1)
    × (connecting pending + metrics_waits pending ≤ 1)
    × (connecting pending + ping_waits pending ≤ 1)
    × (connecting pending + process_waits pending ≤ 1)

module _ {R : Type 0} (env : Environment R) where
  handle-IsPhased :
      (completion : Completion) (s : Session) (e : Engine) (r : R) (pending : List Operation)
      → IsPhased pending
      → take_off (operation_of completion) pending ≡ some s.pending
      → IsPhased (pending_of env (handle (callbacks env) completion (s, (e, r))))
  unfolding handle on_resolve on_connect on_ssl_handshake on_handshake connected_cb start count
  handle-IsPhased (resolved ec) s e r pending h done =
      rw (pending-fail_if ec s)
        (omega (arith, counts (operation_of (resolved ec)) pending s.pending done))
  handle-IsPhased (connected ec named) s e r pending h done =
      rw (pending-fail_if (not named) (fail_if ec s), pending-fail_if ec s)
        (omega (arith, counts (operation_of (connected ec named)) pending s.pending done))
  handle-IsPhased (ssl_shaken ec) s e r pending h done =
      rw (pending-fail_if ec s)
        (omega (arith, counts (operation_of (ssl_shaken ec)) pending s.pending done))
  handle-IsPhased (shaken ec) s e r pending h done =
      rw (pending-fail_if ec s)
        (omega (arith, counts (operation_of (shaken ec)) pending s.pending done))
  handle-IsPhased (filled ec bytes size) s e r pending h done =
      elim (pending-on_read env ec size (fill bytes s) e r) [
        | inl same ↦
            rw same
              (omega (arith, counts (operation_of (filled ec bytes size)) pending s.pending done))
        | inr again ↦
            rw again
              (omega (arith, counts (operation_of (filled ec bytes size)) pending s.pending done))
      ]

  process_timer-IsPhased :
      (first : Bool) (micros : ℕ) (s : Session) (e : Engine) (r : R) (pending : List Operation)
      → IsPhased pending
      → take_off (process_wait first) pending ≡ some s.pending
      → IsPhased (pending_of env (on_process_timer env micros (s, (e, r))).0)
  unfolding count
  process_timer-IsPhased first micros s e r pending h done =
      let before = counts (process_wait first) pending s.pending done in
      elim (pending-on_process_timer env micros s e r) [
        | inl same ↦ rw same (by_first first before)
        | inr again ↦ rw again (by_first_again first before)
      ]
    where
      by_first :
          (first : Bool) → IsCounted pending (process_wait first ∷ s.pending) → IsPhased s.pending
      by_first true before = omega (arith, h, before)
      by_first false before = omega (arith, h, before)

      by_first_again :
          (first : Bool)
          → IsCounted pending (process_wait first ∷ s.pending)
          → IsPhased (process_wait false ∷ s.pending)
      by_first_again true before = omega (arith, h, before)
      by_first_again false before = omega (arith, h, before)

  run_one-IsPhased :
      (event : Event) (down : Bool) (s : Session) (e : Engine) (r : R)
      → IsPhased s.pending
      → IsPhased (pending_of env (run_one env event (down, (s, (e, r)))).0.1)
  unfolding run_one called on_metrics_timer on_ping_timer start count
  run_one-IsPhased (completed completion) down s e r h =
      when_pending-keeps env (λ w. IsPhased (pending_of env w)) _
        (called env (completed completion)) down s (e, r) h
        λ pending done.
          handle-IsPhased completion (record s { pending = pending }) e r s.pending h done
  run_one-IsPhased metrics_timer down s e r h =
      when_pending-keeps env (λ w. IsPhased (pending_of env w)) metrics_wait
        (called env metrics_timer) down s (e, r) h
        λ pending done. omega (arith, h, counts metrics_wait s.pending pending done)
  run_one-IsPhased ping_timer down s e r h =
      when_pending-keeps env (λ w. IsPhased (pending_of env w)) ping_wait (called env ping_timer)
        down s (e, r) h
        λ pending done.
          rw (pending-send env.write _ (record s { pending = pending }))
            (omega (arith, h, counts ping_wait s.pending pending done))
  run_one-IsPhased (process_timer true micros) down s e r h =
      when_pending-keeps env (λ w. IsPhased (pending_of env w)) _
        (called env (process_timer true micros)) down s (e, r) h
        λ pending done.
          rw (pending-on_first_process_timer env micros (record s { pending = pending }) e r) (
            process_timer-IsPhased true micros (record s { pending = pending }) e r s.pending h
              done)
  run_one-IsPhased (process_timer false micros) down s e r h =
      when_pending-keeps env (λ w. IsPhased (pending_of env w)) _
        (called env (process_timer false micros)) down s (e, r) h
        λ pending done.
          process_timer-IsPhased false micros (record s { pending = pending }) e r s.pending h done
  run_one-IsPhased interrupted down s e r h = h

  after_event-IsPhased :
      (event : Program env × Result (Unit {0})) (rest : Program env × Ending)
      → IsPhased (pending_of env event.0.1)
      → IsPhased (pending_of env rest.0.1)
      → IsPhased (pending_of env (after_event env event rest).0.1)
  after_event-IsPhased (p, err x) rest h later = h
  after_event-IsPhased (p, ok _) rest h later = later

  stays-IsPhased :
      (events : List Event) (down : Bool) (s : Session) (e : Engine) (r : R)
      → IsPhased s.pending
      → IsPhased (pending_of env (run env events (down, (s, (e, r)))).0.1)
  unfolding run Engine.stop_processing Session.stop_processing
  stays-IsPhased [] down s e r h = elim (Bool-cases (not down && s.keep_processing)) [
    | inl on ↦ rw on h
    | inr off ↦ rw off h
  ]
  stays-IsPhased (event ∷ events) down s e r h =
      let ((down1, (s1, (e1, r1))), result) = run_one env event (down, (s, (e, r))) in
      let kept = run_one-IsPhased event down s e r h in
      let rest = stays-IsPhased events down1 s1 e1 r1 kept in
      elim (Bool-cases (not down && s.keep_processing)) [
        | inl on ↦ rw on (after_event-IsPhased (run_one env event (down, (s, (e, r)))) _ kept rest)
        | inr off ↦ rw off h
      ]

  -- In every state that the program reaches from its start, whatever happens and with whatever
  -- results: while the name is resolved, the connection made or a handshake done, that step is the
  -- only pending operation; afterwards at most one read is pending, at most one wait of the metrics
  -- timer, at most one of the ping timer and at most one of the process timer.
  pub run-IsPhased :
      (events : List Event) (r : R) → IsPhased (run env events (started env r)).0.1.0.pending
  unfolding start_processing start count
  run-IsPhased events r =
      stays-IsPhased events false (start_processing new_session) _ r (omega arith)
