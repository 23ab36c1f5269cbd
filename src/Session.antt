-- ===== src/Session.antt =====
-- `session_t` of include/session.hpp and src/session.cpp: a websocket connection, driven by the
-- handlers that the `io_context` calls when an asynchronous operation is done.
pub mod Handshake
pub mod Reads
pub mod Chain
use kraken_data_recorder.Base.{
  ℕ, Bool, true, false, not, List, [], ◌∷◌, ◌++◌, if◌then◌else◌, ◌==◌, length,
}
use kraken_data_recorder.Decimal.{Bytes}

-- The asynchronous operations: those of the connection, and the waits of the engine's timers, on
-- the same `io_context`.
pub data Operation : Type 0 where
  async_resolve : Operation
  async_connect : Operation
  async_ssl_handshake : Operation
  async_handshake : Operation
  async_read : Operation
  metrics_wait : Operation
  ping_wait : Operation
  process_wait : Bool → Operation

-- `pending` are the operations that were started and are not done, the latest first. `sent` are the
-- messages that were handed to the websocket, the latest first. Error codes are true on errors.
pub record Session : Type 0 where
  pub keep_processing : Bool
  pub pending : List Operation
  pub read_buffer : Bytes
  pub read_msg_str : Bytes
  pub sent : List Bytes

abbrev pub new_session : Session
new_session = record {
  keep_processing = false;
  pending = [];
  read_buffer = [];
  read_msg_str = [];
  sent = [];
}

unfoldable pub fail : Session → Session
fail s = record s { keep_processing = false }

unfoldable pub stop_processing : Session → Session
stop_processing s = record s { keep_processing = false }

unfoldable pub start : Operation → Session → Session
start operation s = record s { pending = operation ∷ s.pending }

unfoldable pub fail_if : Bool → Session → Session
unfolding fail
fail_if ec s = if ec then fail s else s

unfoldable pub start_processing : Session → Session
unfolding start
start_processing s = start async_resolve (record s { keep_processing = true })

-- What the websocket makes of a write: whether it fails, and the number of bytes it has written.
-- It may depend on all that was sent before.
abbrev pub Write : Type 0
Write = List Bytes → Bytes → Bool × ℕ

unfoldable pub send : Write → Bytes → Session → Session
unfolding fail_if
send write msg s =
    let (ec, num_bytes_written) = write s.sent msg in
    let s1 = fail_if ec (record s { sent = msg ∷ s.sent }) in
    fail_if (not (num_bytes_written == length msg)) s1

unfoldable pub on_resolve : Bool → Session → Session
unfolding fail_if start
on_resolve ec s = start async_connect (fail_if ec s)

-- `named` is the result of `SSL_set_tlsext_host_name`.
unfoldable pub on_connect : Bool → Bool → Session → Session
unfolding fail_if start
on_connect ec named s = start async_ssl_handshake (fail_if (not named) (fail_if ec s))

unfoldable pub on_ssl_handshake : Bool → Session → Session
unfolding fail_if start
on_ssl_handshake ec s = start async_handshake (fail_if ec s)

unfoldable pub on_write : Bool → Session → Session
unfolding fail_if
on_write ec s = fail_if ec s

unfoldable pub on_close : Bool → Session → Session
unfolding fail_if
on_close ec s = fail_if ec s

-- The callbacks that `start_processing` is given: they act on the session and on what it does not
-- know of, a `C`.
pub record Callbacks (C : Type 0) : Type 0 where
  pub handle_connected : Session × C → Session × C
  pub handle_recv : Bytes → Session × C → (Session × C) × Bool

module _ {C : Type 0} (callbacks : Callbacks C) where
  unfoldable pub on_handshake : Bool → Session × C → Session × C
  unfolding fail_if start
  on_handshake ec (s, c) =
      let (s1, c1) =
        callbacks.handle_connected (record (fail_if ec s) { keep_processing = true }, c) in
      (start async_read (record s1 { read_buffer = [] }), c1)

  -- The end of `on_read`, when `handle_recv` has returned.
  unfoldable pub after_recv : (Session × C) × Bool → Session × C
  unfolding stop_processing start
  after_recv ((s, c), received) =
      if not received
      then (stop_processing s, c)
      else if s.keep_processing
      then (start async_read (record s { read_msg_str = [] }), c)
      else (s, c)

  -- `size` is what the websocket reports, and the buffer is what it has filled.
  unfoldable pub on_read : Bool → ℕ → Session × C → Session × C
  unfolding fail_if stop_processing after_recv
  on_read ec size (s, c) =
      let s1 = record (fail_if ec s) { read_msg_str = s.read_buffer } in
      if not (length s1.read_msg_str == size)
      then (stop_processing s1, c)
      else if size == 0
      then (s1, c)
      else after_recv (callbacks.handle_recv s1.read_msg_str (record s1 { read_buffer = [] }, c))
