-- ===== src/Tests/Stopping.antt =====
-- A server that is stopped while a session is being started.
use gateway_poc.Base.{true, false}
use gateway_poc.Front.Server.{Server}
use gateway_poc.Front.Server.Stopping.{Racing, idle, joined}
use gateway_poc.Tests.Front.{a_server}

abbrev one_worker : Server
one_worker = record a_server { config = record a_server.config { threads = 1 } }

abbrev raced : Racing
raced = record {
  server = record one_worker {
    sessions = 1;
    accepting = false;
    stopping = true;
    acceptor_open = false;
    workers = 0;
  };
  handling = idle;
  main = joined;
}
