-- ===== src/Storage.antt =====
-- The package storage/.
pub mod CodeMap
pub mod Rows
pub mod Repository
pub mod Operations
pub mod Answers
pub mod Frame
pub mod Isolation
pub mod PrimaryKeys
pub mod SingleUse
pub mod Revocation
pub mod Families
pub mod Rotation
pub mod Cleanup
pub mod Remembered
pub mod Issued
pub mod Schema
pub mod Utility
pub mod Access
