-- ===== src/Exchange.antt =====
-- The exchange package (src/exchange): bindings, deposits and their way to the sender.
pub mod Types
pub mod Deposit
pub mod Facade
pub mod Store
pub mod Buy
pub mod Send
pub mod Receive
