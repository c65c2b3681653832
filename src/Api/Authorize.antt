-- ===== src/Api/Authorize.antt =====
-- api/endpoints/authorize.py
pub mod Request
pub mod Login
pub mod Grant
pub mod Endpoint
pub mod Granted
pub mod Known
pub mod Authorized
pub mod Remembered
pub mod Redirects
pub mod Exchange
