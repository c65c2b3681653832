-- ===== src/Flow.antt =====
-- guillotina_oauth_server/flow: keys, PKCE, scopes, the key of a consent, and the issue of tokens.
pub mod Keys
pub mod Pkce
pub mod Scopes
pub mod Consent
pub mod Tokens
pub mod Csrf
pub mod Clients
