-- ===== src/Session/Handshake.antt =====
-- What `on_handshake` does with a failure.
use kraken_data_recorder.Base.{Bool, true, false, ◌≡◌, refl}
use kraken_data_recorder.Session.{Session, Callbacks, on_handshake, fail}

module _ {C : Type 0} (callbacks : Callbacks C) where
  -- `on_handshake` does the same whether the handshake failed or not, and whether an earlier step
  -- of the connection failed or not: the flag that `fail` cleared is set again, the client is told
  -- that it is connected, and a read is started.
  pub on_handshake-fail :
      (ec : Bool) (s : Session) (c : C)
      → (on_handshake callbacks ec (s, c) ≡ on_handshake callbacks false (s, c))
        × (on_handshake callbacks ec (fail s, c) ≡ on_handshake callbacks false (s, c))
  unfolding on_handshake
  on_handshake-fail true s c = (refl, refl)
  on_handshake-fail false s c = (refl, refl)
