-- ===== src/Tests.antt =====
-- A database in memory, the deposits of an example, and the theorems at work on them.
pub mod Memory
mod Scans
pub mod Runs
pub mod Turns
pub mod Services
mod Handlers
mod Channels
mod Operators
mod Wallets
mod Exchanges
mod Sends
mod Pools
mod Agents
