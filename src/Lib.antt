-- ===== src/Lib.antt =====
-- A verification library for gateway.poc: `gwfront` takes messages over HTTP and writes them to
-- Postgres or Redis, and `gwback` fetches them from there, saves them to files in chunks, and
-- marks them consumed.
--
-- The front. A configuration file (Front/Config, gwfront/src/utils/config.cpp, and Common/Config,
-- common/utils/config.cpp) chooses a handler (Front/Main, `makeHandler`). The server
-- (Front/Server) accepts connections and starts a session for each (Front/Session). A session
-- hands the body of a request to the handler (Front/Handler, `UniversalHandler`), which is a
-- checker (Front/JsonChecker, Front/FlatbuffersChecker) and a writer (Front/PostgresWriter,
-- Front/RedisWriter) under gwfront/src/handler. A writer keeps one connection for each thread in a
-- shared vector (Front/Connections), whose locked blocks are the steps of
-- Front/Connections/Interleaving. Front/Sessions has the sessions of a front beside one another,
-- in any order of their handlers and over any threads: a handler is one step there, with all that
-- it does. That is a front with one worker, and one with several as long as no two handlers of
-- theirs run at the same time.
--
-- The back. `runLoop` of gwback/src/main.cpp (Back/RunLoop) fetches messages from a producer
-- (gwback/src/producer/interface.hpp), hands them to the consumer (Back/Consumer,
-- gwback/src/consumer/consumer.cpp), and has the producer mark them. The producers are that of
-- Redis (Back/RedisProducer, with the reading of replies in Back/Redis) and that of Postgres
-- (Back/PostgresProducer), which Back/Main chooses between.
--
-- How the code is modelled. A `std::string` is a list of bytes (Base/Bytes). A call that may throw
-- returns an `Outcome`: a value, an exception, or `fault` for undefined behaviour (Base/Outcome);
-- a method that changes its object is such a call on the object's state (Base/Exec), in which what
-- was written before an exception stays written. Unsigned words are natural numbers with the
-- wrap-around written out. Names are those of the source in this language's spelling: `getNext` is
-- `get_next`.
--
-- Libraries are records of operations that the definitions take as arguments: hiredis (Hiredis),
-- libpqxx (Pqxx), toml++ (`Toml` of Common/Config), nlohmann::json (`Nlohmann`), the code
-- generated from instrument.fbs (`Generated`), and the system's resolver (`Resolver`).
-- Boost.Program_options is `ProgramOptions` of Common/Arguments, Boost.Log is `BoostLog`, and the
-- signals are `System`. What the loop relies on of a storage is the record `IsStorage` of
-- Back/Storage. What the producers rely on is a record each: `IsDatabase` of
-- Back/PostgresProducer/Database, and `IsStream` of Back/RedisProducer/Server, beside which
-- `IsAlive` and `IsHealthy` are a database and a server that answer every call.
--
-- The programs. Back/Program and Front/Program are the two `main`s: the command line
-- (Common/Arguments), the configuration, the producer or the handler, and the loop or the server
-- until a signal comes. Gateway puts the two programs on one server of Redis
-- (Gateway/RedisRequests) or one database of Postgres (Gateway/PostgresRequests), the back after
-- the front. What the front relies on there is `AddsEntries` of Gateway/Streams and `AddsRows` of
-- Gateway/Tables; in the calls of each program others may add entries and rows meanwhile.
--
-- Bounds. No definition that models code runs on fuel: the loops of the source are recursion on a
-- list or on a count. `run_loop` takes the number of rounds for which `run` is read as true, and
-- `write_loop` the retries that are left, which start at the source's 2.
--
-- The waiting for a signal (Common/WaitSignal) and the log (Common/Log) are calls of the system
-- and of Boost.Log in their order. The signal shows in the programs as the number of rounds of the
-- loop, and as the list of connections that a server meets before it is stopped;
-- Front/Server/Stopping has the interleavings of that stop with the workers. Where the constructor
-- of a session throws because its peer is gone, the process is terminated (`start_session` of
-- Front/Server).
--
-- Not modelled: the format and the records of the log, and the timeouts and sockets of Boost,
-- whose operations are events of the session and the server; handlers of several sessions that
-- overlap in time, since a writer's calls of its library are one step of Front/Sessions; and a
-- `std::thread` that cannot be started, whose exception would lose the buffer it was given. The
-- detached threads that save chunks are jobs, which `run_jobs` runs in the order that it is given.
pub mod Back
pub mod Base
pub mod Common
pub mod Front
pub mod Gateway
pub mod Hiredis
pub mod Pqxx
pub mod Tests
