-- ===== src/RateLimit.antt =====
-- Rate limiting, in one process and over a Redis server: backend/app/libraries/auth_rate_limiter.py
-- and backend/app/libraries/redis_login_rate_limiter.py.
pub mod Breaker
pub mod Buckets
pub mod Memory
pub mod Interface
pub mod Redis
mod Tests
mod RedisTests
