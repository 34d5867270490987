-- ===== src/Throttler.antt =====
-- src/config/redis-throttler.storage.ts: the rate limiter's storage in Redis.
pub mod Wire
pub mod Resp
pub mod Connection
pub mod Storage
pub mod Script
pub mod PlainWire
mod Tests
