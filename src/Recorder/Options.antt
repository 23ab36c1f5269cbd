-- ===== src/Recorder/Options.antt =====
-- The options of `main` in kdr_record/kdr_record.cpp, and what becomes of them.
use kraken_data_recorder.Base.{
  ℕ, ℤ, pos, Bool, true, false, List, [], String, Option, none, some, ◌≡◌, refl, if◌then◌else◌,
  Result,
}
use kraken_data_recorder.Config.{Config, default_config}
use kraken_data_recorder.Crc.{Crc}
use kraken_data_recorder.Decimal.{Bytes}
use kraken_data_recorder.Messages.FromJson.{Readers}
use kraken_data_recorder.Requests.{Json}
use kraken_data_recorder.Session.{Write}
use kraken_data_recorder.Simdjson.{Simdjson}
use kraken_data_recorder.Recorder.{Recorder, FileWriters, new_recorder}
use kraken_data_recorder.Recorder.Exit.{destroy}
use kraken_data_recorder.Engine.{Environment}
use kraken_data_recorder.Recorder.Loop.{Event, Ending, waiting, stopped, terminated, run, started}
use kraken_data_recorder.Recorder.Parse.{environment_of}

-- The command line as `boost::program_options` has parsed it: what was given for each option, if it
-- was.
pub record Given : Type 0 where
  pub help : Bool
  pub ping_interval_secs : Option ℕ
  pub kraken_host : Option String
  pub kraken_port : Option String
  pub pair_filter : List String
  pub parquet_dir : Option String
  pub book_depth : Option ℤ
  pub capture_book : Option Bool
  pub capture_trades : Option Bool

abbrev pub nothing_given : Given
nothing_given = record {
  help = false;
  ping_interval_secs = none;
  kraken_host = none;
  kraken_port = none;
  pair_filter = [];
  parquet_dir = none;
  book_depth = none;
  capture_book = none;
  capture_trades = none;
}

abbrev pub default_value : {A : Type 0} → A → Option A → A
default_value value none = value
default_value value (some given) = given

unfoldable pub config_of : Given → Config
config_of given = record {
  ping_interval_secs = default_value 30 given.ping_interval_secs;
  kraken_host = default_value "ws.kraken.com" given.kraken_host;
  kraken_port = default_value "443" given.kraken_port;
  pair_filter = given.pair_filter;
  parquet_dir = default_value "/tmp" given.parquet_dir;
  book_depth = default_value (pos 1000) given.book_depth;
  capture_book = default_value true given.capture_book;
  capture_trades = default_value true given.capture_trades;
}

-- The options that are not given have the initial values of the members of `config_t`.
config_of-default_config : config_of nothing_given ≡ default_config
unfolding config_of
config_of-default_config = refl

-- What `main` does: it prints its options, or it leaves its objects as they are at the end of the
-- loop, once their destructors have been called; an exception that leaves `main` ends the program
-- without them, and while the loop waits they are as they are.
pub data Outcome : Type 0 where
  helped : Outcome
  left : Recorder → Ending → Outcome

abbrev pub destroyed : Recorder → Ending → Recorder
destroyed r stopped = destroy r
destroyed r waiting = r
destroyed r (terminated x) = r

module _ (json : Simdjson) (readers : Readers json.Value) (pong : json.Value → Result (Unit {0}))
    (now_at : json.Value → ℤ) (crc : Crc) (serialize : Json → Bytes) (write : Write) where
  abbrev pub env_of : Given → Environment Recorder
  env_of given = environment_of json readers pong now_at crc serialize write (config_of given)

  unfoldable pub main : FileWriters → Given → List Event → Outcome
  main writers given events =
      let env = env_of given in
      let (p, ending) = run env events (started env (new_recorder writers env.config)) in
      if given.help then helped else left (destroyed p.1.1.1 ending) ending
