-- ===== src/Utils.antt =====
-- guillotina_oauth_server/utils: rate limiting, and the parameters of requests.
pub mod RateLimit
pub mod Request
pub mod Urls
pub mod Json
