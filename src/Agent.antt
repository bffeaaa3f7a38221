-- ===== src/Agent.antt =====
-- The agent (src/agent): the reservations and the users that it keeps in memory and in the database.
pub mod Types
pub mod Store
pub mod Queries
pub mod Starting
pub mod Verifying
pub mod Managers
pub mod Booking
