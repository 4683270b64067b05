-- ===== src/Gateway.antt =====
-- The two programs together, by way of a stream of Redis or a table of Postgres that both use.
pub mod Chunks
pub mod PostgresRequests
pub mod RedisRequests
pub mod Requests
pub mod Streams
pub mod Tables
