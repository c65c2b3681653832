-- ===== src/Storage/Repository.antt =====
-- storage/pg/repository.py: the methods of `PostgresOAuthStore`, table by table, and their laws.
pub mod Clients
pub mod Consents
pub mod Codes
pub mod Tokens
pub mod Containers
