-- ===== src/Session/Reads.antt =====
-- When `on_read` starts the next read.
use kraken_data_recorder.Base.{
  ℕ, Bool, true, false, ◌&&◌, [], ◌∷◌, if◌then◌else◌, ◌==◌, length, ◌≡◌, refl, arith,
}
use kraken_data_recorder.Session.{Session, Callbacks, on_read, async_read, after_recv}

-- The session that `handle_recv` is called in.
abbrev pub received : Bool → Session → Session
received ec s = record s {
  keep_processing = if ec then false else s.keep_processing;
  read_msg_str = s.read_buffer;
  read_buffer = [];
}

module _ {C : Type 0} (callbacks : Callbacks C) where
  after_recv-fields :
      (s : Session) (c : C) (continue : Bool)
      → ((after_recv callbacks ((s, c), continue)).1 ≡ c)
        × ((after_recv callbacks ((s, c), continue)).0.pending
            ≡ (if continue && s.keep_processing then async_read ∷ s.pending else s.pending))
        × ((after_recv callbacks ((s, c), continue)).0.keep_processing
            ≡ (continue && s.keep_processing))
  unfolding after_recv
  after_recv-fields s c continue = ground arith

  on_read-recv :
      (ec : Bool) (s : Session) (c : C) (size : ℕ)
      → length s.read_buffer ≡ size
      → (size == 0) ≡ false
      → on_read callbacks ec size (s, c)
        ≡ after_recv callbacks (callbacks.handle_recv s.read_buffer (received ec s, c))
  unfolding on_read
  on_read-recv true s c size h nonzero =
      let same : (length s.read_buffer == size) ≡ true = ground arith in rw (same, nonzero) refl
  on_read-recv false s c size h nonzero =
      let same : (length s.read_buffer == size) ≡ true = ground arith in rw (same, nonzero) refl

  -- A read of a message, not empty and of the size reported, hands it to `handle_recv`, also where
  -- the read failed. Then exactly one more read is started if `handle_recv` has returned true and
  -- the flag is set when it returns; if it has returned false, the flag is cleared.
  pub on_read-message :
      (ec : Bool) (s : Session) (c : C) (size : ℕ)
      → length s.read_buffer ≡ size
      → (size == 0) ≡ false
      → let ((s1, c1), continue) = callbacks.handle_recv s.read_buffer (received ec s, c) in
        ((on_read callbacks ec size (s, c)).1 ≡ c1)
        × ((on_read callbacks ec size (s, c)).0.pending
            ≡ (if continue && s1.keep_processing then async_read ∷ s1.pending else s1.pending))
        × ((on_read callbacks ec size (s, c)).0.keep_processing ≡ (continue && s1.keep_processing))
  on_read-message ec s c size h nonzero =
      let ((s1, c1), continue) = callbacks.handle_recv s.read_buffer (received ec s, c) in
      rw (on_read-recv ec s c size h nonzero) (after_recv-fields s1 c1 continue)

  -- A read of no bytes leaves the flag as it was, unless the read failed, but starts no read.
  pub on_read-empty :
      (ec : Bool) (s : Session) (c : C)
      → s.read_buffer ≡ []
      → ((on_read callbacks ec 0 (s, c)).0.pending ≡ s.pending)
        × ((on_read callbacks ec 0 (s, c)).0.keep_processing
            ≡ (if ec then false else s.keep_processing))
        × ((on_read callbacks ec 0 (s, c)).1 ≡ c)
  unfolding on_read
  on_read-empty true s c h = rw (h, on_read) (refl, refl, refl)
  on_read-empty false s c h = rw (h, on_read) (refl, refl, refl)
