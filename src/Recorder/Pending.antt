-- ===== src/Recorder/Pending.antt =====
-- The pending operations: how many there are of each kind, and what the handlers start.
use kraken_data_recorder.Base.{
  ℕ, ◌+◌, Bool, true, false, ◌&&◌, List, [], ◌∷◌, leb, ◌==◌, length, if◌then◌else◌, none, some, ◌≡◌,
  ◌⊎◌, inl, inr, refl, sym, ap, ◌∙◌, arith, ==_iff, Bool-cases, Option-cases, Result-cases,
}
use kraken_data_recorder.Engine.{
  Environment, World, Engine, callbacks, handle_msg, on_process_timer, on_first_process_timer,
}
use kraken_data_recorder.Engine.Interface.{pending-send, pending-handle_msg}
use kraken_data_recorder.Engine.Queue.{on_process_timer-batch}
use kraken_data_recorder.Session.{
  Session, Operation, async_read, process_wait, start, fail_if, stop_processing, on_read,
  after_recv,
}
use kraken_data_recorder.Session.Chain.{pending-fail_if}
use kraken_data_recorder.Recorder.Loop.{number_of, take_off}

abbrev pub weigh : ℕ → ℕ → ℕ → ℕ
weigh lo hi n = if leb lo n && leb n hi then 1 else 0

-- How many of the pending operations have a number from `lo` to `hi`.
unfoldable pub count : ℕ → ℕ → List Operation → ℕ
count lo hi [] = 0
count lo hi (operation ∷ pending) = weigh lo hi (number_of operation) + count lo hi pending

-- The steps before the handshake is done, the read, and the waits of the three timers.
abbrev pub connecting : List Operation → ℕ
connecting pending = count 0 3 pending

abbrev pub reads : List Operation → ℕ
reads pending = count 4 4 pending

abbrev pub metrics_waits : List Operation → ℕ
metrics_waits pending = count 5 5 pending

abbrev pub ping_waits : List Operation → ℕ
ping_waits pending = count 6 6 pending

abbrev pub process_waits : List Operation → ℕ
process_waits pending = count 7 8 pending

take_off-count :
    (lo hi : ℕ) (operation : Operation) (pending rest : List Operation)
    → take_off operation pending ≡ some rest
    → count lo hi pending ≡ count lo hi (operation ∷ rest)
unfolding take_off count
take_off-count lo hi operation [] rest e = cc
take_off-count lo hi operation (other ∷ pending) rest e =
    elim (Bool-cases (number_of operation == number_of other)) [
      | inl same ↦
          let number : number_of operation ≡ number_of other =
            (==_iff (number_of operation) (number_of other)).0 same in
          let front : some pending ≡ some rest = rw same at e in
          let found : pending ≡ rest = cc in rw (number, found) refl
      | inr different ↦ elim (Option-cases (take_off operation pending)) [
        | inl absent ↦ let none_left : none ≡ some rest = rw (different, absent) at e in cc
        | inr (left, there) ↦
            let kept : some (other ∷ left) ≡ some rest = rw (different, there) at e in
            let found : other ∷ left ≡ rest = cc in
            rw (sym found) (omega (arith, take_off-count lo hi operation pending left there))
      ]
    ]

-- Every count of the one is that of the other.
abbrev pub IsCounted : List Operation → List Operation → Type 0
IsCounted before after =
    (connecting before ≡ connecting after)
    × (reads before ≡ reads after)
    × (metrics_waits before ≡ metrics_waits after)
    × (ping_waits before ≡ ping_waits after)
    × (process_waits before ≡ process_waits after)

pub counts :
    (operation : Operation) (pending rest : List Operation)
    → take_off operation pending ≡ some rest
    → IsCounted pending (operation ∷ rest)
counts operation pending rest done = (
  take_off-count 0 3 operation pending rest done,
  take_off-count 4 4 operation pending rest done,
  take_off-count 5 5 operation pending rest done,
  take_off-count 6 6 operation pending rest done,
  take_off-count 7 8 operation pending rest done,
)

module _ {R : Type 0} (env : Environment R) where
  abbrev pub pending_of : World env → List Operation
  pending_of w = w.0.pending

  pending-after_recv :
      (c : World env × Bool)
      → (pending_of (after_recv (callbacks env) c) ≡ pending_of c.0)
        ⊎ (pending_of (after_recv (callbacks env) c) ≡ async_read ∷ pending_of c.0)
  unfolding after_recv stop_processing start
  pending-after_recv ((s, er), true) = elim (Bool-cases s.keep_processing) [
    | inl on ↦ rw on (inr refl)
    | inr off ↦ rw off (inl refl)
  ]
  pending-after_recv ((s, er), false) = inl refl

  pub pending-on_read :
      (ec : Bool) (size : ℕ) (s : Session) (e : Engine) (r : R)
      → (pending_of (on_read (callbacks env) ec size (s, (e, r))) ≡ s.pending)
        ⊎ (pending_of (on_read (callbacks env) ec size (s, (e, r))) ≡ async_read ∷ s.pending)
  unfolding on_read stop_processing
  pending-on_read ec size s e r = elim (Bool-cases (length s.read_buffer == size)) [
    | inl same ↦ elim (Bool-cases (size == 0)) [
      | inl empty ↦ rw (same, empty, on_read) (inl (pending-fail_if ec s))
      | inr nonzero ↦
          let t : Session = record (fail_if ec s) {
            read_msg_str = s.read_buffer;
            read_buffer = [];
          } in
          let got = pending-handle_msg env s.read_buffer t e r ∙ pending-fail_if ec s in
          rw (same, nonzero, on_read)
            (joined got (pending-after_recv (handle_msg env s.read_buffer (t, (e, r)))))
    ]
    | inr other ↦ rw (other, on_read) (inl (pending-fail_if ec s))
  ]
    where
      joined :
          {before middle after : List Operation}
          → middle ≡ before
          → (after ≡ middle) ⊎ (after ≡ async_read ∷ middle)
          → (after ≡ before) ⊎ (after ≡ async_read ∷ before)
      joined e (inl same) = inl (same ∙ e)
      joined e (inr more) = inr (more ∙ ap (◌∷◌ async_read) e)

  pub pending-on_process_timer :
      (micros : ℕ) (s : Session) (e : Engine) (r : R)
      → (pending_of (on_process_timer env micros (s, (e, r))).0 ≡ s.pending)
        ⊎ (pending_of (on_process_timer env micros (s, (e, r))).0 ≡ process_wait false ∷ s.pending)
  unfolding start
  pending-on_process_timer micros s e r = elim (on_process_timer-batch env micros s e r).2 [
    | inl (taken, rest, again) ↦ inr (ap (λ s. s.pending) again)
    | inr (x, thrown, stays) ↦ inl (ap (λ s. s.pending) stays)
  ]

  pub pending-on_first_process_timer :
      (micros : ℕ) (s : Session) (e : Engine) (r : R)
      → pending_of (on_first_process_timer env micros (s, (e, r))).0
        ≡ pending_of (on_process_timer env micros (s, (e, r))).0
  unfolding on_first_process_timer
  pending-on_first_process_timer micros s e r =
      elim (Result-cases (on_process_timer env micros (s, (e, r))).1) [
        | inl (x, thrown) ↦ rw (thrown, on_first_process_timer) refl
        | inr (done, processed) ↦
            rw (processed, on_first_process_timer) (pending-send env.write _ _)
      ]
