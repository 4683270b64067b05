-- ===== src/Back.antt =====
-- gwback: reads messages from a storage, hands them to the consumer, and marks them consumed.
pub mod Config
pub mod Consumer
pub mod Main
pub mod Message
pub mod PostgresProducer
pub mod Program
pub mod Redis
pub mod RedisProducer
pub mod RunLoop
pub mod Storage
