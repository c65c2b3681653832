-- ===== src/Indicators.antt =====
-- guillotina_oauth_server/indicators: the resources (RFC 8707) that tokens are issued for.
pub mod Registry
pub mod Grant
pub mod Access
