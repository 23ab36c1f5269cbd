-- ===== src/Requests.antt =====
-- The requests of include/requests.hpp and src/requests.cpp, as the JSON that they build. Its
-- text is what `boost::json::serialize` makes of it. A `double` is its 64 bits.
use kraken_data_recorder.Base.{ℕ, ℤ, Bool, true, List, [], ◌∷◌, String}
use kraken_data_recorder.Constants.{
  c_request_channel, c_request_method, c_request_params, c_request_req_id, c_param_depth,
  c_param_snapshot, c_param_symbol, c_channel_instrument, c_channel_book, c_channel_trade,
  c_method_ping, c_method_subscribe,
}

mutual
  pub data Json : Type 0 where
    string : String → Json
    number : ℕ → Json
    integer : ℤ → Json
    double : ℕ → Json
    boolean : Bool → Json
    array : Items → Json
    object : Fields → Json

  pub data Items : Type 0 where
    no_items : Items
    item : Json → Items → Items

  pub data Fields : Type 0 where
    no_fields : Fields
    field : String → Json → Fields → Fields

pub record Ping : Type 0 where
  pub req_id : ℕ

pub record SubscribeInstrument : Type 0 where
  pub req_id : ℕ
  pub snapshot : Bool

-- A request for the instruments with `snapshot` at its default.
abbrev pub instrument_request : ℕ → SubscribeInstrument
instrument_request req_id = record { req_id = req_id; snapshot = true }

pub record SubscribeBook : Type 0 where
  pub req_id : ℕ
  pub depth : ℤ
  pub snapshot : Bool
  pub symbols : List String

pub record SubscribeTrade : Type 0 where
  pub req_id : ℕ
  pub snapshot : Bool
  pub symbols : List String

-- `ping_t::to_json_obj`
unfoldable pub ping : Ping → Json
ping request = object (
    field c_request_method (string c_method_ping)
      (field c_request_req_id (number request.req_id) no_fields))

-- The array that `std::transform` fills.
unfoldable pub symbol_objs : List String → Items
symbol_objs [] = no_items
symbol_objs (symbol ∷ symbols) = item (string symbol) (symbol_objs symbols)

abbrev subscribe : Fields → ℕ → Json
subscribe params req_id = object (
    field c_request_method (string c_method_subscribe)
      (field c_request_params (object params) (field c_request_req_id (number req_id) no_fields)))

-- `subscribe_instrument_t::to_json_obj`
unfoldable pub subscribe_instrument : SubscribeInstrument → Json
subscribe_instrument request =
    subscribe
      (field c_request_channel (string c_channel_instrument)
        (field c_param_snapshot (boolean request.snapshot) no_fields))
      request.req_id

-- `subscribe_book_t::to_json_obj`
unfoldable pub subscribe_book : SubscribeBook → Json
unfolding symbol_objs
subscribe_book request =
    subscribe
      (field c_request_channel (string c_channel_book) (
        field c_param_depth (integer request.depth) (
          field c_param_snapshot (boolean request.snapshot)
            (field c_param_symbol (array (symbol_objs request.symbols)) no_fields))))
      request.req_id

-- `subscribe_trade_t::to_json_obj`
unfoldable pub subscribe_trade : SubscribeTrade → Json
unfolding symbol_objs
subscribe_trade request =
    subscribe
      (field c_request_channel (string c_channel_trade) (
        field c_param_snapshot (boolean request.snapshot)
          (field c_param_symbol (array (symbol_objs request.symbols)) no_fields)))
      request.req_id
