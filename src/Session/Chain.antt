-- ===== src/Session/Chain.antt =====
-- The run of a session as a step relation: `run_one` takes an operation that is done off the
-- pending ones and calls its handler.
use kraken_data_recorder.Base.{
  ℕ, suc, ◌+◌, ◌≤◌, Bool, true, false, not, List, [], ◌∷◌, ◌++◌, ◌==◌, length, ◌≡◌, refl, ap, ◌∙◌,
  arith, Bool-cases, inl, inr,
}
use kraken_data_recorder.Decimal.{Bytes}
use kraken_data_recorder.Session.{
  Operation, async_resolve, async_connect, async_ssl_handshake, async_handshake, async_read,
  metrics_wait, ping_wait, process_wait, Session, Callbacks, fail, fail_if, start, on_resolve,
  on_connect, on_ssl_handshake, on_handshake, on_read, after_recv, start_processing, new_session,
}

-- How many of the pending operations are the connection's.
abbrev pub weight : Operation → ℕ
weight async_resolve = 1
weight async_connect = 1
weight async_ssl_handshake = 1
weight async_handshake = 1
weight async_read = 1
weight metrics_wait = 0
weight ping_wait = 0
weight (process_wait first) = 0

unfoldable pub connection_count : List Operation → ℕ
connection_count [] = 0
connection_count (operation ∷ pending) = weight operation + connection_count pending

-- An operation of the connection that is done, with what it reports. A read has put its bytes at
-- the end of the buffer.
pub data Completion : Type 0 where
  resolved : Bool → Completion
  connected : Bool → Bool → Completion
  ssl_shaken : Bool → Completion
  shaken : Bool → Completion
  filled : Bool → Bytes → ℕ → Completion

abbrev pub operation_of : Completion → Operation
operation_of (resolved ec) = async_resolve
operation_of (connected ec named) = async_connect
operation_of (ssl_shaken ec) = async_ssl_handshake
operation_of (shaken ec) = async_handshake
operation_of (filled ec bytes size) = async_read

abbrev pub fill : Bytes → Session → Session
fill bytes s = record s { read_buffer = s.read_buffer ++ bytes }

-- What a callback must leave alone: it starts and completes no operation of the connection.
abbrev pub IsQuiet : {C : Type 0} → Callbacks C → Type 0
IsQuiet {C = C} callbacks =
    ((s : Session) (c : C)
      → connection_count (callbacks.handle_connected (s, c)).0.pending ≡ connection_count s.pending)
    × ((msg : Bytes) (s : Session) (c : C)
        → connection_count (callbacks.handle_recv msg (s, c)).0.0.pending
          ≡ connection_count s.pending)

connection_count-append :
    (before after : List Operation)
    → connection_count (before ++ after) ≡ connection_count before + connection_count after
unfolding connection_count
connection_count-append [] after = omega arith
connection_count-append (operation ∷ before) after =
    omega (arith, connection_count-append before after)

pub pending-fail_if : (ec : Bool) (s : Session) → (fail_if ec s).pending ≡ s.pending
unfolding fail_if fail
pending-fail_if true s = refl
pending-fail_if false s = refl

-- Starting one operation of the connection, in a session that has the operations of another.
start-connection_count :
    (operation : Operation) (s t : Session)
    → weight operation ≡ 1
    → connection_count s.pending ≡ connection_count t.pending
    → connection_count (start operation s).pending ≤ suc (connection_count t.pending)
unfolding start connection_count
start-connection_count operation s t one same = omega arith

weight-operation_of : (completion : Completion) → weight (operation_of completion) ≡ 1
weight-operation_of (resolved ec) = refl
weight-operation_of (connected ec named) = refl
weight-operation_of (ssl_shaken ec) = refl
weight-operation_of (shaken ec) = refl
weight-operation_of (filled ec bytes size) = refl

module _ {C : Type 0} (callbacks : Callbacks C) where
  unfoldable pub handle : Completion → Session × C → Session × C
  handle (resolved ec) (s, c) = (on_resolve ec s, c)
  handle (connected ec named) (s, c) = (on_connect ec named s, c)
  handle (ssl_shaken ec) (s, c) = (on_ssl_handshake ec s, c)
  handle (shaken ec) (s, c) = on_handshake callbacks ec (s, c)
  handle (filled ec bytes size) (s, c) = on_read callbacks ec size (fill bytes s, c)

  -- A step completes an operation of the connection, or a timer's, whose handler is not the
  -- session's and leaves the connection alone.
  pub data Step : Session × C → Session × C → Type 0 where
    completed :
        (completion : Completion) (s : Session) (c : C) (before after : List Operation)
        → s.pending ≡ before ++ operation_of completion ∷ after
        → Step (s, c) (handle completion (record s { pending = before ++ after }, c))
    timer :
        (s s' : Session) (c c' : C)
        → connection_count s'.pending ≡ connection_count s.pending
        → Step (s, c) (s', c')

  pub data Steps : Session × C → Session × C → Type 0 where
    done : (w : Session × C) → Steps w w
    step : (u v w : Session × C) → Steps u v → Step v w → Steps u w

  module _ (quiet : IsQuiet callbacks) where
    after_recv-count :
        (s t : Session) (c : C) (continue : Bool)
        → connection_count s.pending ≡ connection_count t.pending
        → connection_count (after_recv callbacks ((s, c), continue)).0.pending
          ≤ suc (connection_count t.pending)
    unfolding after_recv start connection_count
    after_recv-count s t c continue same = ground arith

    on_read-count :
        (ec : Bool) (size : ℕ) (s : Session) (c : C)
        → connection_count (on_read callbacks ec size (s, c)).0.pending
          ≤ suc (connection_count s.pending)
    unfolding on_read
    on_read-count ec size s c = elim (Bool-cases (length s.read_buffer == size)) [
      | inl same ↦ elim (Bool-cases (size == 0)) [
        | inl empty ↦ rw (same, empty, on_read) (quiet_end ec s)
        | inr nonzero ↦
            let t : Session = record (fail_if ec s) {
              read_msg_str = s.read_buffer;
              read_buffer = [];
            } in
            let ((s1, c1), continue) = callbacks.handle_recv s.read_buffer (t, c) in
            rw (same, nonzero, on_read)
              (after_recv-count s1 s c1 continue
                (quiet.1 s.read_buffer t c ∙ ap connection_count (pending-fail_if ec s)))
      ]
      | inr other ↦ rw (other, on_read) (quiet_end ec s)
    ]
      where
        quiet_end :
            (ec : Bool) (s : Session)
            → connection_count (fail_if ec s).pending ≤ suc (connection_count s.pending)
        quiet_end ec s =
            let same : connection_count (fail_if ec s).pending ≡ connection_count s.pending =
              ap connection_count (pending-fail_if ec s) in
            omega arith

    handle-connection_count :
        (completion : Completion) (s : Session) (c : C)
        → connection_count (handle completion (s, c)).0.pending ≤ suc (connection_count s.pending)
    unfolding handle on_resolve on_connect on_ssl_handshake on_handshake
    handle-connection_count (resolved ec) s c =
        start-connection_count async_connect (fail_if ec s) s refl
          (ap connection_count (pending-fail_if ec s))
    handle-connection_count (connected ec named) s c =
        start-connection_count async_ssl_handshake (fail_if (not named) (fail_if ec s)) s refl
          (ap connection_count (pending-fail_if (not named) (fail_if ec s) ∙ pending-fail_if ec s))
    handle-connection_count (ssl_shaken ec) s c =
        start-connection_count async_handshake (fail_if ec s) s refl
          (ap connection_count (pending-fail_if ec s))
    handle-connection_count (shaken ec) s c =
        let s0 : Session = record (fail_if ec s) { keep_processing = true } in
        let (s1, c1) = callbacks.handle_connected (s0, c) in
        start-connection_count async_read (record s1 { read_buffer = [] }) s refl
          (quiet.0 s0 c ∙ ap connection_count (pending-fail_if ec s))
    handle-connection_count (filled ec bytes size) s c = on_read-count ec size (fill bytes s) c

    Step-connection_count :
        (u v : Session × C)
        → Step u v
        → connection_count u.0.pending ≤ 1
        → connection_count v.0.pending ≤ 1
    unfolding connection_count
    Step-connection_count u v (completed completion s c before after e) h =
        let all : connection_count s.pending
            ≡ connection_count before + (1 + connection_count after) =
          rw
            (
              e,
              connection_count-append before (operation_of completion ∷ after),
              weight-operation_of completion,
            )
            refl in
        let rest = handle-connection_count completion (record s { pending = before ++ after }) c in
        omega (arith, rest, connection_count-append before after)
    Step-connection_count u v (timer s s' c c' e) h = omega (arith, e, h)

    -- From `start_processing` on a new session on, at most one operation of the connection is
    -- pending, whatever completes, with whatever result, as long as the callbacks start none.
    pub Steps-connection_count :
        (c : C) (w : Session × C)
        → Steps (start_processing new_session, c) w
        → connection_count w.0.pending ≤ 1
    unfolding start_processing connection_count
    Steps-connection_count c w run = from run (omega arith)
      where
        from :
            {u w : Session × C}
            → Steps u w
            → connection_count u.0.pending ≤ 1
            → connection_count w.0.pending ≤ 1
        from (done w) h = h
        from (step u v w run last) h = Step-connection_count v w last (from run h)
