-- ===== src/Storage/Utility.antt =====
-- storage/utility.py
pub mod Startup
pub mod Sound
pub mod Rounds
pub mod Drained
