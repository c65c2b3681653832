-- ===== src/Auth.antt =====
-- guillotina_oauth_server/auth: the access tokens of requests to Guillotina.
pub mod Validators
pub mod Accepted
pub mod Issued
