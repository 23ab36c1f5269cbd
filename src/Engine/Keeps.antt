-- ===== src/Engine/Keeps.antt =====
-- Predicates on what the sink keeps, along `handle_msg`.
use text.Mathlib.Text.{◌==◌ as str_eq}
use kraken_data_recorder.Base.{
  String, Bool, true, [], ◌∷◌, ◌++◌, Result, ok, err, inl, inr, arith, Option-cases, Bool-cases,
  Result-cases, All, All-append, Ensures,
}
use kraken_data_recorder.Decimal.{Bytes}
use kraken_data_recorder.Messages.{Book, Instrument, Trades, c_snapshot, c_update}
use kraken_data_recorder.Metrics
use kraken_data_recorder.Metrics.{Metrics}
use kraken_data_recorder.Session.{Session}
use kraken_data_recorder.Engine.{
  Environment, Engine, World, handle_msg, try_msg, caught, handle_book_msg, handle_channel,
  handle_method, handle_instrument_msg, handle_instrument_snapshot, handle_instrument_update,
  handle_trade_msg, handle_heartbeat_msg, handle_pong_msg, subscribe_book, subscribe_trades,
}

-- `P` is kept by the functions of the sink that `handle_msg` calls, and every book that is parsed
-- has `Q`.
pub record Hears {R : Type 0} (env : Environment R) (P : R → Type 0) (Q : Book → Type 0)
    : Type 0 where
  pub instrument :
      (response : Instrument) (r : R) → P r → P (env.sink.accept_instrument response r).0
  pub trades : (response : Trades) (r : R) → P r → P (env.sink.accept_trades response r).0
  pub parsed : (doc : env.parser.Document) → Ensures Q (env.parser.book doc)

-- The same of all the functions of the sink.
pub record Keeps {R : Type 0} (env : Environment R) (P : R → Type 0) (Q : Book → Type 0)
    : Type 0 where
  pub instrument :
      (response : Instrument) (r : R) → P r → P (env.sink.accept_instrument response r).0
  pub book : (response : Book) (r : R) → Q response → P r → P (env.sink.accept_book response r).0
  pub trades : (response : Trades) (r : R) → P r → P (env.sink.accept_trades response r).0
  pub parsed : (doc : env.parser.Document) → Ensures Q (env.parser.book doc)

abbrev pub heard :
    {R : Type 0} {env : Environment R} {P : R → Type 0} {Q : Book → Type 0}
    → Keeps env P Q
    → Hears env P Q
heard keeps = record { instrument = keeps.instrument; trades = keeps.trades; parsed = keeps.parsed }

module _ {R : Type 0} (env : Environment R) (P : R → Type 0) (Q : Book → Type 0)
    (hears : Hears env P Q) where
  open env use {config, parser, sink}

  abbrev pub IsKept : World env → Type 0
  IsKept (s, (e, r)) = All Q e.book_responses × P r

  fed_instrument :
      (doc : parser.Document) (s : Session) (e : Engine) (r : R)
      → IsKept (s, (e, r))
      → IsKept (handle_instrument_update env doc (s, (e, r))).0
        × IsKept (handle_instrument_snapshot env doc (s, (e, r))).0
  unfolding handle_instrument_update handle_instrument_snapshot subscribe_book subscribe_trades
  fed_instrument doc s e r h = elim (Result-cases (parser.instrument doc)) [
    | inl (x, failed) ↦ rw (failed, handle_instrument_update, handle_instrument_snapshot) (h, h)
    | inr (response, read) ↦
        let after = hears.instrument response r h.1 in
        elim (Result-cases (sink.accept_instrument response r).1) [
          | inl (x, thrown) ↦
              rw (read, thrown, handle_instrument_update, handle_instrument_snapshot)
                ((h.0, after), (h.0, after))
          | inr (done, taken) ↦
              rw (read, taken, handle_instrument_update, handle_instrument_snapshot)
                ((h.0, after), ground (arith, h.0, after))
        ]
  ]

  instrument_msg-IsKept :
      (doc : parser.Document) (s : Session) (e : Engine) (r : R)
      → IsKept (s, (e, r))
      → IsKept (handle_instrument_msg env doc (s, (e, r))).0
  unfolding handle_instrument_msg
  instrument_msg-IsKept doc s e r h = elim (Option-cases (parser.kind doc)) [
    | inl missing ↦ rw (missing, handle_instrument_msg) h
    | inr (kind, has) ↦
        let fed = fed_instrument doc s e r h in
        rw (has, handle_instrument_msg)
          (elim (Bool-cases (str_eq kind c_snapshot)) [
            | inl first ↦ rw first fed.1
            | inr later ↦ elim (Bool-cases (str_eq kind c_update)) [
              | inl update ↦ rw (later, update) fed.0
              | inr other ↦ rw (later, other) h
            ]
          ])
  ]

  book_msg-IsKept :
      (doc : parser.Document) (s : Session) (e : Engine) (r : R)
      → IsKept (s, (e, r))
      → IsKept (handle_book_msg env doc (s, (e, r))).0
  unfolding handle_book_msg
  book_msg-IsKept doc s e r h = by_read (parser.book doc) (hears.parsed doc)
    where
      by_read :
          (read : Result Book)
          → Ensures Q read
          → IsKept
              (elim read as (λ _. World env × Result Bool) [
                | err x ↦ ((s, (e, r)), err x)
                | ok book ↦ (
                  (s, (record e { book_responses = e.book_responses ++ (book ∷ []) }, r)),
                  ok true,
                )
              ]).0
      by_read (err x) q = h
      by_read (ok book) q = (All-append Q e.book_responses (book ∷ []) h.0 (q, tt), h.1)

  trade_msg-IsKept :
      (doc : parser.Document) (s : Session) (e : Engine) (r : R)
      → IsKept (s, (e, r))
      → IsKept (handle_trade_msg env doc (s, (e, r))).0
  unfolding handle_trade_msg
  trade_msg-IsKept doc s e r h = elim (Result-cases (parser.trades doc)) [
    | inl (x, failed) ↦ rw (failed, handle_trade_msg) h
    | inr (response, read) ↦
        let after = hears.trades response r h.1 in
        elim (Result-cases (sink.accept_trades response r).1) [
          | inl (x, thrown) ↦ rw (read, thrown, handle_trade_msg) (h.0, after)
          | inr (done, taken) ↦ rw (read, taken, handle_trade_msg) (h.0, after)
        ]
  ]

  pong_msg-IsKept :
      (doc : parser.Document) (s : Session) (e : Engine) (r : R)
      → IsKept (s, (e, r))
      → IsKept (handle_pong_msg env doc (s, (e, r))).0
  unfolding handle_pong_msg
  pong_msg-IsKept doc s e r h = elim (Result-cases (parser.pong doc)) [
    | inl (x, failed) ↦ rw (failed, handle_pong_msg) h
    | inr (done, read) ↦ rw (read, handle_pong_msg) h
  ]

  channel-IsKept :
      (channel : String) (doc : parser.Document) (s : Session) (e : Engine) (r : R)
      → IsKept (s, (e, r))
      → IsKept (handle_channel env channel doc (s, (e, r))).0
  unfolding handle_channel handle_heartbeat_msg
  channel-IsKept channel doc s e r h = elim (Bool-cases (str_eq channel "instrument")) [
    | inl is ↦ rw is (instrument_msg-IsKept doc s e r h)
    | inr not_instrument ↦ elim (Bool-cases (str_eq channel "book")) [
      | inl is ↦ rw (not_instrument, is) (book_msg-IsKept doc s e r h)
      | inr not_book ↦ elim (Bool-cases (str_eq channel "trade")) [
        | inl is ↦ rw (not_instrument, not_book, is) (trade_msg-IsKept doc s e r h)
        | inr not_trade ↦ elim (Bool-cases (str_eq channel "heartbeat")) [
          | inl is ↦ rw (not_instrument, not_book, not_trade, is) h
          | inr other ↦ rw (not_instrument, not_book, not_trade, other) h
        ]
      ]
    ]
  ]

  method-IsKept :
      (msg : Bytes) (method : String) (s : Session) (e : Engine) (r : R)
      → IsKept (s, (e, r))
      → IsKept (handle_method env msg method (s, (e, r))).0
  unfolding handle_method
  method-IsKept msg method s e r h = elim (Bool-cases (str_eq method "pong")) [
    | inl is ↦ elim (Result-cases (parser.iterate msg)) [
      | inl (x, failed) ↦ rw (is, failed, handle_method) h
      | inr (doc, read) ↦ rw (is, read, handle_method) (pong_msg-IsKept doc s e r h)
    ]
    | inr other ↦ rw (other, handle_method) h
  ]

  try_msg-IsKept :
      (msg : Bytes) (s : Session) (e : Engine) (r : R)
      → IsKept (s, (e, r))
      → IsKept (try_msg env msg (s, (e, r))).0
  unfolding try_msg
  try_msg-IsKept msg s e r h = elim (Result-cases (parser.iterate msg)) [
    | inl (x, failed) ↦ rw (failed, try_msg) h
    | inr (doc, read) ↦ elim (Option-cases (parser.channel doc)) [
      | inr (channel, has) ↦ rw (read, has, try_msg) (channel-IsKept channel doc s e r h)
      | inl none_1 ↦ elim (Option-cases (parser.method doc)) [
        | inl none_2 ↦ rw (read, none_1, none_2, try_msg) h
        | inr (method, has) ↦ rw (read, none_1, has, try_msg) (method-IsKept msg method s e r h)
      ]
    ]
  ]

  -- A message keeps them, whatever it is.
  pub handle_msg-IsKept :
      (msg : Bytes) (s : Session) (e : Engine) (r : R)
      → IsKept (s, (e, r))
      → IsKept (handle_msg env msg (s, (e, r))).0
  unfolding handle_msg caught
  handle_msg-IsKept msg s e r h =
      by_caught _ (try_msg-IsKept msg s (record e { metrics = Metrics.accept msg e.metrics }) r h)
    where
      by_caught : (w : World env × Result Bool) → IsKept w.0 → IsKept (caught env w).0
      by_caught (w, ok continue) kept = kept
      by_caught (w, err x) kept = kept
