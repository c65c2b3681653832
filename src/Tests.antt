-- ===== src/Tests.antt =====
-- The theorems at concrete inputs.
mod Data
mod Stores
mod Limits
mod Endpoints
mod Schemas
mod Web
mod Clients
mod AccessTokens
mod Databases
mod CodeMaps
mod Authorize
