-- ===== src/Utils/RateLimit.antt =====
-- utils/ratelimit.py: the sliding-window rate limiter, in memory and over Redis.
pub mod Memory
pub mod Redis
pub mod Window
pub mod Bound
pub mod Keys
pub mod Agreement
