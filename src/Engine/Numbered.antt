-- ===== src/Engine/Numbered.antt =====
-- The requests that the engine sends, and their ids.
use kraken_data_recorder.Base.{
  ℕ, suc, Bool, true, false, if◌then◌else◌, length, ◌==◌, List, [], ◌∷◌, String, Result, ok, err,
  ◌≡◌, refl, inl, inr, arith, Result-cases, Bool-cases, Option-cases,
}
use kraken_data_recorder.Config.{Config}
use kraken_data_recorder.Decimal.{Bytes}
use kraken_data_recorder.Messages.{Book}
use kraken_data_recorder.Metrics.{Metrics}
use kraken_data_recorder.Requests
use kraken_data_recorder.Requests.{Json}
use kraken_data_recorder.Session.{Session, Write, send, fail_if, fail, start}
use kraken_data_recorder.Engine.{
  Environment, Engine, World, handle_msg, try_msg, caught, subscribe_book, subscribe_trades,
  subscribed, handle_instrument_snapshot, handle_channel, handle_method, handle_instrument_msg,
  handle_instrument_update, handle_book_msg, handle_trade_msg, handle_heartbeat_msg,
  handle_pong_msg, on_ping_timer, on_process_timer, on_first_process_timer, process_done, min_ℕ,
  c_process_batch_size,
}

pub sent-send : (write : Write) (msg : Bytes) (s : Session) → (send write msg s).sent ≡ msg ∷ s.sent
unfolding send fail_if fail
sent-send write msg s = ground arith

-- What may have been sent, the latest first, when the last ids of pings, of requests for the
-- instruments, for books and for trades are these: the text of one request for each id, in order,
-- for books and trades only where the configuration captures them.
pub data IsNumbered (serialize : Json → Bytes) (config : Config)
    : ℕ → ℕ → ℕ → ℕ → List Bytes → Type 0 where
  nothing : IsNumbered serialize config 0 0 0 0 []
  pinged :
      {p i b t : ℕ} {sent : List Bytes}
      → IsNumbered serialize config p i b t sent
      → IsNumbered serialize config
          (suc p)
          i
          b
          t
          (serialize (Requests.ping (record { req_id = suc p })) ∷ sent)
  asked_instruments :
      {p i b t : ℕ} {sent : List Bytes}
      → IsNumbered serialize config p i b t sent
      → IsNumbered serialize config p
          (suc i)
          b
          t
          (serialize (Requests.subscribe_instrument (Requests.instrument_request (suc i))) ∷ sent)
  asked_books :
      {p i b t : ℕ} {sent : List Bytes} (symbols : List String)
      → config.capture_book ≡ true
      → IsNumbered serialize config p i b t sent
      → IsNumbered serialize config p i (suc b) t (
          serialize (
            Requests.subscribe_book (record {
              req_id = suc b;
              depth = config.book_depth;
              snapshot = true;
              symbols = symbols;
            }))
          ∷ sent)
  asked_trades :
      {p i b t : ℕ} {sent : List Bytes} (symbols : List String)
      → config.capture_trades ≡ true
      → IsNumbered serialize config p i b t sent
      → IsNumbered serialize config p i b (suc t) (
          serialize (
            Requests.subscribe_trade
              (record { req_id = suc t; snapshot = true; symbols = symbols }))
          ∷ sent)

module _ {R : Type 0} (env : Environment R) where
  open env use {config, parser, serialize, write, sink}

  abbrev Ids : Session → Engine → Type 0
  Ids s e =
      IsNumbered serialize config e.ping_req_id e.inst_req_id e.book_req_id e.trade_req_id s.sent

  abbrev pub IsNumberedWorld : World env → Type 0
  IsNumberedWorld (s, (e, r)) = Ids s e

  if-Ids :
      (captured : Bool) (sent kept : Session × Engine)
      → (captured ≡ true → Ids sent.0 sent.1)
      → Ids kept.0 kept.1
      → let (s1, e1) = if captured then sent else kept in Ids s1 e1
  if-Ids true sent kept after before = after refl
  if-Ids false sent kept after before = before

  subscribe_book-Ids :
      (symbols : List String) (s : Session) (e : Engine)
      → Ids s e
      → let (s1, e1) = subscribe_book env symbols (s, e) in Ids s1 e1
  unfolding subscribe_book
  subscribe_book-Ids symbols s e h =
      if-Ids config.capture_book _ (s, e)
        (λ on. rw (sent-send write _ s) (asked_books symbols on h)) h

  subscribe_trades-Ids :
      (symbols : List String) (s : Session) (e : Engine)
      → Ids s e
      → let (s1, e1) = subscribe_trades env symbols (s, e) in Ids s1 e1
  unfolding subscribe_trades
  subscribe_trades-Ids symbols s e h =
      if-Ids config.capture_trades _ (s, e)
        (λ on. rw (sent-send write _ s) (asked_trades symbols on h)) h

  both-Ids :
      (symbols : List String) (s : Session) (e : Engine)
      → Ids s e
      → let (s1, e1) = subscribe_trades env symbols (subscribe_book env symbols (s, e)) in Ids s1 e1
  both-Ids symbols s e h =
      subscribe_trades-Ids symbols (subscribe_book env symbols (s, e)).0
        (subscribe_book env symbols (s, e)).1 (subscribe_book-Ids symbols s e h)

  snapshot-Ids :
      (doc : parser.Document) (s : Session) (e : Engine) (r : R)
      → Ids s e
      → IsNumberedWorld (handle_instrument_snapshot env doc (s, (e, r))).0
  unfolding handle_instrument_snapshot
  snapshot-Ids doc s e r h = elim (Result-cases (parser.instrument doc)) [
    | inl (x, failed) ↦ rw (failed, handle_instrument_snapshot) h
    | inr (response, read) ↦ elim (Result-cases (sink.accept_instrument response r).1) [
      | inl (x, thrown) ↦ rw (read, thrown, handle_instrument_snapshot) h
      | inr (done, taken) ↦
          rw (read, taken, handle_instrument_snapshot)
            (both-Ids (subscribed config.pair_filter response.pairs) s e h)
    ]
  ]

  channel-Ids :
      (channel : String) (doc : parser.Document) (s : Session) (e : Engine) (r : R)
      → Ids s e
      → IsNumberedWorld (handle_channel env channel doc (s, (e, r))).0
  unfolding handle_channel handle_instrument_msg handle_instrument_update handle_book_msg
      handle_trade_msg handle_heartbeat_msg
  channel-Ids channel doc s e r h = ground (arith, h, snapshot-Ids doc s e r h)

  method-Ids :
      (msg : Bytes) (method : String) (s : Session) (e : Engine) (r : R)
      → Ids s e
      → IsNumberedWorld (handle_method env msg method (s, (e, r))).0
  unfolding handle_method handle_pong_msg
  method-Ids msg method s e r h = ground (arith, h)

  try_msg-Ids :
      (msg : Bytes) (s : Session) (e : Engine) (r : R)
      → Ids s e
      → IsNumberedWorld (try_msg env msg (s, (e, r))).0
  unfolding try_msg
  try_msg-Ids msg s e r h = elim (Result-cases (parser.iterate msg)) [
    | inl (x, failed) ↦ rw (failed, try_msg) h
    | inr (doc, read) ↦ elim (Option-cases (parser.channel doc)) [
      | inr (channel, has) ↦ rw (read, has, try_msg) (channel-Ids channel doc s e r h)
      | inl none ↦ elim (Option-cases (parser.method doc)) [
        | inl neither ↦ rw (read, none, neither, try_msg) h
        | inr (method, has) ↦ rw (read, none, has, try_msg) (method-Ids msg method s e r h)
      ]
    ]
  ]

  caught-Ids :
      (w : World env × Result Bool) → IsNumberedWorld w.0 → IsNumberedWorld (caught env w).0
  unfolding caught
  caught-Ids (w, ok continue) h = h
  caught-Ids (w, err x) h = h

  pub handle_msg-IsNumbered :
      (msg : Bytes) (s : Session) (e : Engine) (r : R)
      → Ids s e
      → IsNumberedWorld (handle_msg env msg (s, (e, r))).0
  unfolding handle_msg
  handle_msg-IsNumbered msg s e r h = caught-Ids _ (try_msg-Ids msg s _ r h)

  pub on_ping_timer-IsNumbered :
      (s : Session) (e : Engine) (r : R) → Ids s e → IsNumberedWorld (on_ping_timer env (s, (e, r)))
  unfolding on_ping_timer start
  on_ping_timer-IsNumbered s e r h = rw (sent-send write _ s) (pinged h)

  process_done-Ids :
      (seen timed : Metrics) (s : Session) (e : Engine) (c : (List Book × R) × Result (Unit {0}))
      → Ids s e
      → IsNumberedWorld (process_done env seen timed s e c).0
  unfolding process_done start
  process_done-Ids seen timed s e ((books, r), err x) h = h
  process_done-Ids seen timed s e ((books, r), ok _) h = h

  pub on_process_timer-IsNumbered :
      (micros : ℕ) (s : Session) (e : Engine) (r : R)
      → Ids s e
      → IsNumberedWorld (on_process_timer env micros (s, (e, r))).0
  unfolding on_process_timer start
  on_process_timer-IsNumbered micros s e r h =
      elim (Bool-cases (min_ℕ c_process_batch_size (length e.book_responses) == 0)) [
        | inl none ↦ rw (none, on_process_timer) h
        | inr some ↦ rw (some, on_process_timer) (process_done-Ids _ _ s e _ h)
      ]

  pub on_first_process_timer-IsNumbered :
      (micros : ℕ) (s : Session) (e : Engine) (r : R)
      → Ids s e
      → IsNumberedWorld (on_first_process_timer env micros (s, (e, r))).0
  unfolding on_first_process_timer
  on_first_process_timer-IsNumbered micros s e r h =
      let kept = on_process_timer-IsNumbered micros s e r h in
      elim (Result-cases (on_process_timer env micros (s, (e, r))).1) [
        | inl (x, thrown) ↦ rw (thrown, on_first_process_timer) kept
        | inr (done, processed) ↦
            rw (processed, on_first_process_timer, sent-send write _ _) (asked_instruments kept)
      ]
