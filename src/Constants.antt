-- ===== src/Constants.antt =====
-- The strings of the websocket protocol (include/constants.hpp).
use kraken_data_recorder.Base.{String}

abbrev pub c_request_channel : String
c_request_channel = "channel"

abbrev pub c_request_method : String
c_request_method = "method"

abbrev pub c_request_params : String
c_request_params = "params"

abbrev pub c_request_req_id : String
c_request_req_id = "req_id"

abbrev pub c_param_depth : String
c_param_depth = "depth"

abbrev pub c_param_snapshot : String
c_param_snapshot = "snapshot"

abbrev pub c_param_symbol : String
c_param_symbol = "symbol"

abbrev pub c_response_data : String
c_response_data = "data"

abbrev pub c_response_channel : String
c_response_channel = "channel"

abbrev pub c_response_method : String
c_response_method = "method"

abbrev pub c_channel_instrument : String
c_channel_instrument = "instrument"

abbrev pub c_channel_book : String
c_channel_book = "book"

abbrev pub c_channel_trade : String
c_channel_trade = "trade"

abbrev pub c_channel_heartbeat : String
c_channel_heartbeat = "heartbeat"

abbrev pub c_method_ping : String
c_method_ping = "ping"

abbrev pub c_method_pong : String
c_method_pong = "pong"

abbrev pub c_method_subscribe : String
c_method_subscribe = "subscribe"

abbrev pub c_instrument_assets : String
c_instrument_assets = "assets"

abbrev pub c_instrument_pairs : String
c_instrument_pairs = "pairs"

abbrev pub c_instrument_snapshot : String
c_instrument_snapshot = "snapshot"

abbrev pub c_instrument_update : String
c_instrument_update = "update"
