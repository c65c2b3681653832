-- ===== src/Flow/Clients.antt =====
-- flow/clients.py: redirect URIs, the registration of clients, and the redirects themselves.
pub mod RedirectUris
pub mod Registration
pub mod Registrable
pub mod Redirects
