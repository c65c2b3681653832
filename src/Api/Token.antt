-- ===== src/Api/Token.antt =====
-- api/endpoints/token.py
pub mod Endpoint
pub mod Exchange
pub mod Complete
pub mod Refresh
pub mod Refused
pub mod Replay
