-- ===== src/Commands.antt =====
-- guillotina_oauth_server/commands.
pub mod Migrate
pub mod Databases
