-- ===== src/Front.antt =====
-- gwfront: an HTTP server that checks messages and writes them to a storage.
pub mod Config
pub mod Handler
pub mod JsonChecker
pub mod FlatbuffersChecker
pub mod Connections
pub mod PostgresWriter
pub mod Program
pub mod RedisWriter
pub mod Requests
pub mod Session
pub mod Sessions
pub mod Stored
pub mod Server
pub mod Main
