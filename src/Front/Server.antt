-- ===== src/Front/Server.antt =====
-- gwfront/src/http/server.cpp. Boost.Asio runs the handlers; the worker threads are counted.
pub mod Accepting
pub mod Stopping
use gateway_poc.Base.{ℕ, zero, suc, ◌+◌, Bool, true, false, Option, none, some, if◌then◌else◌}
use gateway_poc.Base.Bytes.{Bytes}
use gateway_poc.Front.Config.{HttpServerConfig}

pub record Server : Type 0 where
  pub config : HttpServerConfig
  pub stopping : Bool
  pub acceptor_open : Bool
  pub accepting : Bool  -- an `async_accept` is pending
  pub sessions : ℕ  -- the sessions that were started
  pub workers : ℕ

-- `listen`
listen : Server → Server
listen s = record s { acceptor_open = true }

-- `accept`
accept : Server → Server
accept s = record s { accepting = true }

-- `for (uint16_t i = 0; i < config_.threads; ++i)`
add_workers : ℕ → Server → Server
add_workers zero s = s
add_workers (suc rounds) s = add_workers rounds (record s { workers = s.workers + 1 })

run_workers : Server → Server
unfolding add_workers
run_workers s = add_workers s.config.threads (record s { workers = 0 })

join_workers : Server → Server
join_workers s = record s { workers = 0 }

unfoldable pub start : Server → Server
unfolding run_workers accept listen
start s = run_workers (accept (listen (record s { stopping = false })))

-- `close` and `ioContext_.stop` end the pending operation; its handler does not run any more.
pub stop : Server → Server
unfolding join_workers
stop s = join_workers (record s { stopping = true; acceptor_open = false; accepting = false })

-- How an `async_accept` ends: with an error, or with a socket, and there with what the constructor
-- of the session finds by `remote_endpoint`, which throws where the peer is gone.
pub data Arrival : Type 0 where
  failed : Arrival
  connected : Option Bytes → Arrival

-- The session is started, and the next connection awaited. An exception of the constructor leaves
-- the function of the worker's thread, and terminates the process.
start_session : Option Bytes → Server → Option Server
unfolding accept
start_session none s = none
start_session (some endpoint) s =
    let begun : Server = record s { sessions = s.sessions + 1 } in
    some (if begun.stopping then begun else accept begun)

-- `onAccept`. The operation that ended is no longer pending.
unfoldable pub on_accept : Arrival → Server → Option Server
unfolding start_session
on_accept failed s = some (record s { accepting = false })
on_accept (connected endpoint) s = start_session endpoint (record s { accepting = false })
