-- ===== src/Integrations.antt =====
-- guillotina_oauth_server/integrations/mcp: the MCP protocol endpoint as a protected resource.
pub mod Identifiers
pub mod Challenge
