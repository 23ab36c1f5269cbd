-- ===== src/Engine/Interface.antt =====
-- The callbacks of the engine, as the session needs them.
use kraken_data_recorder.Base.{Bool, List, Result, ok, err, ◌≡◌, refl, ap, ◌∙◌, arith}
use kraken_data_recorder.Decimal.{Bytes}
use kraken_data_recorder.Session.{Session, Operation, Write, send, fail_if, fail, start}
use kraken_data_recorder.Session.Chain.{connection_count, IsQuiet}
use kraken_data_recorder.Engine.{
  Environment, Engine, World, connected_cb, handle_msg, try_msg, caught, callbacks,
}

pub pending-send :
    (write : Write) (msg : Bytes) (s : Session) → (send write msg s).pending ≡ s.pending
unfolding send fail_if fail
pending-send write msg s = ground arith

module _ {R : Type 0} (env : Environment R) where
  open env use {parser}

  abbrev pending_of : World env × Result Bool → List Operation
  pending_of (w, result) = w.0.pending

  caught-pending : (w : World env × Result Bool) → (caught env w).0.0.pending ≡ pending_of w
  unfolding caught
  caught-pending (w, ok continue) = refl
  caught-pending (w, err x) = refl

  try_msg-pending :
      (msg : Bytes) (s : Session) (e : Engine) (r : R)
      → pending_of (try_msg env msg (s, (e, r))) ≡ s.pending
  unfolding try_msg
  try_msg-pending msg s e r = ground arith

  -- The callbacks of the engine start and complete no operation of the connection, whatever the
  -- message is, and whatever the parser, the sink and the websocket do.
  pub callbacks-IsQuiet : IsQuiet (callbacks env)
  unfolding handle_msg connected_cb start connection_count
  callbacks-IsQuiet = (
    (λ s er. omega arith),
    λ msg s er. ap connection_count (caught-pending _ ∙ try_msg-pending msg s _ er.1),
  )

  -- A message starts and completes no operation at all.
  pub pending-handle_msg :
      (msg : Bytes) (s : Session) (e : Engine) (r : R)
      → (handle_msg env msg (s, (e, r))).0.0.pending ≡ s.pending
  unfolding handle_msg
  pending-handle_msg msg s e r = caught-pending _ ∙ try_msg-pending msg s _ r
