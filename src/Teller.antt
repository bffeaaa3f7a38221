-- ===== src/Teller.antt =====
-- The teller service (src/teller): the reservation of a box over HTTP.
pub mod Reserving
pub mod Service
pub mod Http
