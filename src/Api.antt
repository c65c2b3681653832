-- ===== src/Api.antt =====
-- guillotina_oauth_server/api/endpoints.
pub mod Pages
pub mod Response
pub mod Token
pub mod Authorize
pub mod Revoke
pub mod Services
pub mod Register
pub mod Registered
pub mod Consents
pub mod Throttling
