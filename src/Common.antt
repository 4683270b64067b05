-- ===== src/Common.antt =====
-- common/utils: what both programs share.
pub mod Arguments
pub mod Config
pub mod Tables
pub mod Log
pub mod ResolveHost
pub mod WaitSignal
