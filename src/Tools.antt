-- ===== src/Tools.antt =====
-- The programs of cmd that an operator runs on the database file.
pub mod Fixing
pub mod Renaming
