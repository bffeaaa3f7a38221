-- ===== src/Scanner.antt =====
-- The scanner package (src/scanner): what it records of a chain, and how deposits leave it.
pub mod Dummy
pub mod Types
pub mod Store
pub mod Multiplexer
pub mod Blocks
pub mod Base
