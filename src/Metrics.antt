-- ===== src/Metrics.antt =====
-- `metrics_t` of include/metrics.hpp and src/metrics.cpp: counters of type `size_t`, so modulo
-- 2 ^ 64. The time it was made is
-- left out.
use kraken_data_recorder.Base.{ℕ, ◌+◌, ◌%◌, ◌^◌, if◌then◌else◌, ltb, length, String}
use kraken_data_recorder.Decimal.{Bytes}
use kraken_data_recorder.Requests.{Json, number, object, field, no_fields}

abbrev pub c_book_last_consumed : String
c_book_last_consumed = "book_last_consumed"

abbrev pub c_book_last_process_micros : String
c_book_last_process_micros = "book_last_process_micros"

abbrev pub c_book_max_queue_depth : String
c_book_max_queue_depth = "book_max_queue_depth"

abbrev pub c_book_queue_depth : String
c_book_queue_depth = "book_queue_depth"

abbrev pub c_num_bytes : String
c_num_bytes = "num_bytes"

abbrev pub c_num_heartbeats : String
c_num_heartbeats = "num_heartbeats"

abbrev pub c_num_msgs : String
c_num_msgs = "num_msgs"

abbrev pub c_num_pings : String
c_num_pings = "num_pings"

abbrev pub c_num_pongs : String
c_num_pongs = "num_pongs"

pub record Metrics : Type 0 where
  pub book_last_consumed : ℕ
  pub book_last_process_micros : ℕ
  pub book_queue_depth : ℕ
  pub book_max_queue_depth : ℕ
  pub num_bytes : ℕ
  pub num_heartbeats : ℕ
  pub num_msgs : ℕ
  pub num_pings : ℕ
  pub num_pongs : ℕ

abbrev pub no_metrics : Metrics
no_metrics = record {
  book_last_consumed = 0;
  book_last_process_micros = 0;
  book_queue_depth = 0;
  book_max_queue_depth = 0;
  num_bytes = 0;
  num_heartbeats = 0;
  num_msgs = 0;
  num_pings = 0;
  num_pongs = 0;
}

abbrev pub plus : ℕ → ℕ → ℕ
plus a b = (a + b) % 2 ^ 64

unfoldable pub accept : Bytes → Metrics → Metrics
accept msg m = record m { num_msgs = plus m.num_msgs 1; num_bytes = plus m.num_bytes (length msg) }

unfoldable pub heartbeat : Metrics → Metrics
heartbeat m = record m { num_heartbeats = plus m.num_heartbeats 1 }

unfoldable pub ping : Metrics → Metrics
ping m = record m { num_pings = plus m.num_pings 1 }

unfoldable pub pong : Metrics → Metrics
pong m = record m { num_pongs = plus m.num_pongs 1 }

unfoldable pub set_book_last_consumed : ℕ → Metrics → Metrics
set_book_last_consumed consumed m = record m { book_last_consumed = consumed }

unfoldable pub set_book_last_process_micros : ℕ → Metrics → Metrics
set_book_last_process_micros micros m = record m { book_last_process_micros = micros }

unfoldable pub set_book_queue_depth : ℕ → Metrics → Metrics
set_book_queue_depth depth m = record m {
  book_queue_depth = depth;
  book_max_queue_depth = if ltb m.book_max_queue_depth depth then depth else m.book_max_queue_depth;
}

unfoldable pub to_json_obj : Metrics → Json
to_json_obj m = object (
    field c_num_msgs (number m.num_msgs) (
      field c_num_bytes (number m.num_bytes) (
        field c_book_queue_depth (number m.book_queue_depth) (
          field c_book_max_queue_depth (number m.book_max_queue_depth) (
            field c_book_last_consumed (number m.book_last_consumed) (
              field c_book_last_process_micros (number m.book_last_process_micros) (
                field c_num_heartbeats (number m.num_heartbeats) (
                  field c_num_pings (number m.num_pings)
                    (field c_num_pongs (number m.num_pongs) no_fields)))))))))
