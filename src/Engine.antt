-- ===== src/Engine.antt =====
-- `engine_t` of include/engine.hpp and src/engine.cpp: what is done with the messages of the
-- session, and the timers. The parser, `boost::json::serialize`, the websocket's write and the sink
-- are parameters. The state of an engine is its session, its own members and what its sink keeps.
pub mod Queue
pub mod Interface
pub mod Messages
pub mod Subscriptions
pub mod Keeps
pub mod Batches
pub mod Numbered
pub mod Arrivals
pub mod Fifo
use text.Mathlib.Text.{◌==◌ as str_eq}
use kraken_data_recorder.Base.{
  ℕ, zero, suc, Bool, true, false, not, List, [], ◌∷◌, ◌++◌, String, Option, none, some,
  if◌then◌else◌, ltb, ◌==◌, length, Result, ok, err, out_of_bounds, map, ◌>>=◌,
}
use kraken_data_recorder.Config.{Config}
use kraken_data_recorder.Constants.{
  c_channel_instrument, c_channel_book, c_channel_trade, c_channel_heartbeat, c_method_pong,
  c_instrument_snapshot, c_instrument_update,
}
use kraken_data_recorder.Decimal.{Bytes}
use kraken_data_recorder.Messages.{Book, Pair, Instrument, Trades}
use kraken_data_recorder.Metrics
use kraken_data_recorder.Metrics.{Metrics, no_metrics}
use kraken_data_recorder.Requests
use kraken_data_recorder.Requests.{Json}
use kraken_data_recorder.Session
use kraken_data_recorder.Session.{
  Session, Write, Callbacks, start, send, metrics_wait, ping_wait, process_wait,
}

-- `simdjson`, and the `from_json` functions over it: each may throw. A member that a document has
-- not, or not as a string, is none.
pub record Parser : Type 1 where
  pub Document : Type 0
  pub iterate : Bytes → Result Document
  pub channel : Document → Option String
  pub method : Document → Option String
  pub kind : Document → Option String
  pub instrument : Document → Result Instrument
  pub book : Document → Result Book
  pub trades : Document → Result Trades
  pub pong : Document → Result (Unit {0})
  pub to_json_string : Document → Result Bytes

-- `sink_t`: its three functions, which may throw after a change.
pub record Sink (R : Type 0) : Type 0 where
  pub accept_instrument : Instrument → R → R × Result (Unit {0})
  pub accept_book : Book → R → R × Result (Unit {0})
  pub accept_trades : Trades → R → R × Result (Unit {0})

pub record Engine : Type 0 where
  pub book_req_id : ℕ
  pub inst_req_id : ℕ
  pub ping_req_id : ℕ
  pub trade_req_id : ℕ
  pub book_responses : List Book
  pub metrics : Metrics

abbrev pub new_engine : Engine
new_engine = record {
  book_req_id = 0;
  inst_req_id = 0;
  ping_req_id = 0;
  trade_req_id = 0;
  book_responses = [];
  metrics = no_metrics;
}

abbrev pub c_process_batch_size : ℕ
c_process_batch_size = 64

unfoldable pub find : String → List String → Bool
find symbol [] = false
find symbol (known ∷ names) = if str_eq known symbol then true else find symbol names

-- `std::remove_if` and `erase`
unfoldable pub keep : List String → List String → List String
unfolding find
keep pair_filter [] = []
keep pair_filter (symbol ∷ symbols) =
    if find symbol pair_filter then symbol ∷ keep pair_filter symbols else keep pair_filter symbols

unfoldable pub symbols_of : List Pair → List String
symbols_of [] = []
symbols_of (pair ∷ pairs) = pair.symbol ∷ symbols_of pairs

unfoldable pub subscribed : List String → List Pair → List String
unfolding keep symbols_of
subscribed [] pairs = symbols_of pairs
subscribed (name ∷ names) pairs = keep (name ∷ names) (symbols_of pairs)

unfoldable pub min_ℕ : ℕ → ℕ → ℕ
min_ℕ a b = if ltb b a then b else a

module _ {R : Type 0} (sink : Sink R) where
  -- The rest of the loop's body, when `accept` has returned or thrown: `pop`, and the loop again.
  abbrev pub after_accept :
      Book
      → List Book
      → R
      → (List Book × R) × Result (Unit {0})
      → Result (Unit {0})
      → (List Book × R) × Result (Unit {0})
  after_accept book books r rest (err x) = ((book ∷ books, r), err x)
  after_accept book books r rest (ok _) = rest

  -- The loop of `on_process_timer`. A book that the sink throws at stays at the front.
  unfoldable pub consume : ℕ → List Book → R → (List Book × R) × Result (Unit {0})
  consume zero books r = ((books, r), ok tt)
  consume (suc n) [] r = (([], r), err out_of_bounds)
  consume (suc n) (book ∷ books) r =
      let (r1, accepted) = sink.accept_book book r in
      let rest = consume n books r1 in after_accept book books r1 rest accepted

-- What an engine is made with, and the libraries that it calls.
pub record Environment (R : Type 0) : Type 1 where
  pub config : Config
  pub parser : Parser
  pub serialize : Json → Bytes
  pub write : Write
  pub sink : Sink R

module _ {R : Type 0} (env : Environment R) where
  open env use {config, parser, serialize, write, sink}

  abbrev pub World : Type 0
  World = Session × (Engine × R)

  -- The end of `handle_instrument_snapshot`: the requests.
  unfoldable pub subscribe_book : List String → Session × Engine → Session × Engine
  unfolding send
  subscribe_book symbols (s, e) =
      if config.capture_book
      then (
        send write
            (serialize (
              Requests.subscribe_book (record {
                req_id = suc e.book_req_id;
                depth = config.book_depth;
                snapshot = true;
                symbols = symbols;
              })))
            s,
        record e { book_req_id = suc e.book_req_id },
      )
      else (s, e)

  unfoldable pub subscribe_trades : List String → Session × Engine → Session × Engine
  unfolding send
  subscribe_trades symbols (s, e) =
      if config.capture_trades
      then (
        send write
            (serialize (
              Requests.subscribe_trade
                (record { req_id = suc e.trade_req_id; snapshot = true; symbols = symbols })))
            s,
        record e { trade_req_id = suc e.trade_req_id },
      )
      else (s, e)

  unfoldable pub handle_instrument_snapshot : parser.Document → World → World × Result Bool
  unfolding subscribed subscribe_book subscribe_trades
  handle_instrument_snapshot doc (s, (e, r)) = elim (parser.instrument doc) [
    | err x ↦ ((s, (e, r)), err x)
    | ok response ↦
        let (r1, accepted) = sink.accept_instrument response r in
        let symbols = subscribed config.pair_filter response.pairs in
        let (s1, e1) = subscribe_trades symbols (subscribe_book symbols (s, e)) in
        elim accepted [ err x ↦ ((s, (e, r1)), err x) | ok _ ↦ ((s1, (e1, r1)), ok true) ]
  ]

  unfoldable pub handle_instrument_update : parser.Document → World → World × Result Bool
  handle_instrument_update doc (s, (e, r)) = elim (parser.instrument doc) [
    | err x ↦ ((s, (e, r)), err x)
    | ok response ↦
        let (r1, accepted) = sink.accept_instrument response r in
        elim accepted [ err x ↦ ((s, (e, r1)), err x) | ok _ ↦ ((s, (e, r1)), ok true) ]
  ]

  unfoldable pub handle_instrument_msg : parser.Document → World → World × Result Bool
  unfolding handle_instrument_snapshot handle_instrument_update
  handle_instrument_msg doc w = elim (parser.kind doc) [
    | none ↦ (w, ok false)
    | some kind ↦
        if str_eq kind c_instrument_snapshot
        then handle_instrument_snapshot doc w
        else if str_eq kind c_instrument_update
        then handle_instrument_update doc w
        else (w, ok false)
  ]

  unfoldable pub handle_book_msg : parser.Document → World → World × Result Bool
  handle_book_msg doc (s, (e, r)) = elim (parser.book doc) [
    | err x ↦ ((s, (e, r)), err x)
    | ok book ↦ ((s, (record e { book_responses = e.book_responses ++ (book ∷ []) }, r)), ok true)
  ]

  unfoldable pub handle_trade_msg : parser.Document → World → World × Result Bool
  handle_trade_msg doc (s, (e, r)) = elim (parser.trades doc) [
    | err x ↦ ((s, (e, r)), err x)
    | ok response ↦
        let (r1, accepted) = sink.accept_trades response r in
        elim accepted [ err x ↦ ((s, (e, r1)), err x) | ok _ ↦ ((s, (e, r1)), ok true) ]
  ]

  unfoldable pub handle_heartbeat_msg : World → World × Result Bool
  handle_heartbeat_msg (s, (e, r)) =
      ((s, (record e { metrics = Metrics.heartbeat e.metrics }, r)), ok true)

  unfoldable pub handle_pong_msg : parser.Document → World → World × Result Bool
  handle_pong_msg doc (s, (e, r)) = elim (parser.pong doc) [
    | err x ↦ ((s, (e, r)), err x)
    | ok _ ↦ ((s, (record e { metrics = Metrics.pong e.metrics }, r)), ok true)
  ]

  -- The two branches of `handle_msg`, by the member that the message has.
  unfoldable pub handle_channel : String → parser.Document → World → World × Result Bool
  unfolding handle_instrument_msg handle_book_msg handle_trade_msg handle_heartbeat_msg
  handle_channel channel doc w =
      if str_eq channel c_channel_instrument
      then handle_instrument_msg doc w
      else if str_eq channel c_channel_book
      then handle_book_msg doc w
      else if str_eq channel c_channel_trade
      then handle_trade_msg doc w
      else if str_eq channel c_channel_heartbeat
      then handle_heartbeat_msg w
      else (w, ok true)

  unfoldable pub handle_method : Bytes → String → World → World × Result Bool
  unfolding handle_pong_msg
  handle_method msg method w =
      let again : World × Result Bool = elim (parser.iterate msg) [
        | err x ↦ (w, err x)
        | ok pong_doc ↦ handle_pong_msg pong_doc w
      ] in
      if str_eq method c_method_pong then again else (w, ok true)

  -- The body of the `try` of `handle_msg`. A message with neither a channel nor a method is logged,
  -- and its text may throw. The other texts that are logged stand where the result is false, which
  -- is what a throw comes to.
  unfoldable pub try_msg : Bytes → World → World × Result Bool
  unfolding handle_channel handle_method
  try_msg msg w = elim (parser.iterate msg) [
    | err x ↦ (w, err x)
    | ok doc ↦ elim (parser.channel doc) [
      | some channel ↦ handle_channel channel doc w
      | none ↦ elim (parser.method doc) [
        | some method ↦ handle_method msg method w
        | none ↦ (w, parser.to_json_string doc >>= λ text. ok true)
      ]
    ]
  ]

  unfoldable pub caught : World × Result Bool → World × Bool
  caught (w, ok continue) = (w, continue)
  caught (w, err x) = (w, false)

  unfoldable pub handle_msg : Bytes → World → World × Bool
  unfolding try_msg caught
  handle_msg msg (s, (e, r)) =
      caught (try_msg msg (s, (record e { metrics = Metrics.accept msg e.metrics }, r)))

  -- The callback for the connection: it starts the three timers.
  unfoldable pub connected_cb : World → World
  unfolding start
  connected_cb (s, er) = (start ping_wait (start (process_wait true) (start metrics_wait s)), er)

  unfoldable pub on_metrics_timer : World → World
  unfolding start
  on_metrics_timer (s, er) = (start metrics_wait s, er)

  unfoldable pub on_ping_timer : World → World
  unfolding start send
  on_ping_timer (s, (e, r)) = (
    start ping_wait
        (send write (serialize (Requests.ping (record { req_id = suc e.ping_req_id }))) s),
    (record e { ping_req_id = suc e.ping_req_id; metrics = Metrics.ping e.metrics }, r),
  )

  -- What follows the loop, with the metrics before it and after it.
  unfoldable pub process_done :
      Metrics
      → Metrics
      → Session
      → Engine
      → (List Book × R) × Result (Unit {0})
      → World × Result (Unit {0})
  unfolding start
  process_done seen timed s e ((books, r), err x) =
      ((s, (record e { metrics = seen; book_responses = books }, r)), err x)
  process_done seen timed s e ((books, r), ok _) = (
    (start (process_wait false) s, (record e { metrics = timed; book_responses = books }, r)),
    ok tt,
  )

  -- `micros` is the time that the loop takes, by the clock. An exception leaves it, and the timer
  -- is not started again.
  unfoldable pub on_process_timer : ℕ → World → World × Result (Unit {0})
  unfolding consume process_done start min_ℕ
  on_process_timer micros (s, (e, r)) =
      let num_to_process = min_ℕ c_process_batch_size (length e.book_responses) in
      let seen = Metrics.set_book_queue_depth (length e.book_responses) e.metrics in
      let timed =
        Metrics.set_book_last_consumed num_to_process
          (Metrics.set_book_last_process_micros micros seen) in
      let ((books, r1), consumed) = consume sink num_to_process e.book_responses r in
      if num_to_process == 0
      then ((start (process_wait false) s, (record e { metrics = seen }, r)), ok tt)
      else process_done seen timed s e ((books, r1), consumed)

  -- The handler of the first wait of the process timer, which subscribes to the instruments.
  unfoldable pub on_first_process_timer : ℕ → World → World × Result (Unit {0})
  unfolding on_process_timer send
  on_first_process_timer micros w =
      let ((s, (e, r)), processed) = on_process_timer micros w in
      elim processed [
        | err x ↦ ((s, (e, r)), err x)
        | ok _ ↦ (
          (
            send write
                (serialize
                  (Requests.subscribe_instrument (Requests.instrument_request (suc e.inst_req_id))))
                s,
            (record e { inst_req_id = suc e.inst_req_id }, r),
          ),
          ok tt,
        )
      ]

  -- `stop_processing`. The waits that it cancels still complete, with an error code.
  unfoldable pub stop_processing : World → World
  unfolding Session.stop_processing
  stop_processing (s, er) = (Session.stop_processing s, er)

  abbrev pub callbacks : Callbacks (Engine × R)
  callbacks = record { handle_connected = connected_cb; handle_recv = handle_msg }
