-- ===== src/Front/Program.antt =====
-- `main` of gwfront/src/main.cpp. The server of Boost.Asio accepts connections until a signal
-- comes.
pub mod Ends
use gateway_poc.Base.{ℕ, Bool, true, false, Option, none, some, List}
use gateway_poc.Base.Bytes.{Bytes}
use gateway_poc.Base.Outcome.{Outcome, ok, throw, fault}
use gateway_poc.Common.Arguments.{
  ProgramOptions, Parsed, stops, goes_on, Exit, success, failure, parse_arguments,
}
use gateway_poc.Common.Config.{Toml, RedisConfig, connection_string}
use gateway_poc.Common.ResolveHost.{Resolver}
use gateway_poc.Front.Config.{HttpServerConfig, Config, parse_config}
use gateway_poc.Front.Main.{Checker, Handler, postgres_handler, redis_handler, make_handler}
use gateway_poc.Front.RedisWriter.{make_config}
use gateway_poc.Front.Server.{Server, Arrival, start, stop}
use gateway_poc.Front.Server.Accepting.{arrivals}

-- A handler that was made: the connection string of Postgres, or Redis at the address of its host.
pub data Serving : Type 0 where
  through_postgres : Checker → Bytes → Serving
  through_redis : Checker → RedisConfig → Serving

abbrev pub new_server : HttpServerConfig → Server
new_server config = record {
  config = config;
  stopping = false;
  acceptor_open = false;
  accepting = false;
  sessions = 0;
  workers = 0;
}

abbrev pub resolved : Checker → Outcome Bytes RedisConfig → Outcome Bytes Serving
resolved checker (ok config) = ok (through_redis checker config)
resolved checker (throw e) = throw e
resolved checker fault = fault

-- The constructors of the writers.
unfoldable pub construct : Resolver → Handler → Outcome Bytes Serving
construct r (postgres_handler checker config) =
    ok (through_postgres checker (connection_string config))
construct r (redis_handler checker config) = resolved checker (make_config r config)

-- How the program ends: before its server runs, or with the server that it has stopped.
pub data Ending : Type 0 where
  not_started : Exit → Ending
  served : Serving → Server → Ending
  terminated : Ending  -- an exception in the thread of a worker
  undefined : Ending

abbrev pub exit_of : Ending → Option Exit
exit_of (not_started e) = some e
exit_of (served handler server) = some success
exit_of terminated = none
exit_of undefined = none

-- `refuses` says with which exception a port refuses to be listened to, and `connections` how the
-- server's pending accepts end.
module _ (options : ProgramOptions) (toml : Toml) (resolver : Resolver) (refuses : ℕ → Option Bytes)
    (connections : List Arrival) where
  unfoldable pub finished : Serving → Option Server → Ending
  finished handler none = terminated
  finished handler (some server) = served handler (stop server)

  unfoldable pub listened : HttpServerConfig → Serving → Option Bytes → Ending
  unfolding finished
  listened config handler (some what) = not_started failure
  listened config handler none = finished handler (arrivals (start (new_server config)) connections)

  unfoldable pub serve : HttpServerConfig → Outcome Bytes Serving → Ending
  unfolding listened
  serve config (ok handler) = listened config handler (refuses config.port)
  serve config (throw e) = not_started failure
  serve config fault = undefined

  unfoldable pub handled : HttpServerConfig → Outcome Bytes Handler → Ending
  unfolding serve construct
  handled config (ok handler) = serve config (construct resolver handler)
  handled config (throw e) = not_started failure
  handled config fault = undefined

  unfoldable pub configured : Outcome Bytes Config → Ending
  unfolding handled
  configured (ok config) = handled config.http (make_handler config)
  configured (throw e) = not_started failure
  configured fault = undefined

  unfoldable pub parsed : Parsed → Ending
  unfolding configured
  parsed (stops shown) = not_started failure
  parsed (goes_on path) = configured (parse_config toml path)

  unfoldable pub main : List Bytes → Ending
  unfolding parsed
  main args = parsed (parse_arguments options args)
