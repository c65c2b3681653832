-- ===== src/Storage/Schema.antt =====
-- storage/pg/schema_ops.py: the schema's status, its installation, and migrations.
pub mod Status
pub mod Columns
pub mod Install
pub mod Migrations
