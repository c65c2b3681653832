-- ===== src/Discovery.antt =====
-- guillotina_oauth_server/discovery: the well-known documents.
pub mod Routing
pub mod Metadata
