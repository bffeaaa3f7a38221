-- ===== src/Agent/Types.antt =====
-- Reservations and users (src/agent/reservation.go, user.go).
use teller.Common.{ℕ, Text, codes, List}

pub record Reservation : Type 0 where
  pub deposit_address : Text
  pub owner_address : Text
  pub kitty_id : Text
  pub status : Text
  pub price_btc : ℕ  -- int64
  pub price_sky : ℕ  -- int64
  pub coin_type : Text
  pub expire : ℕ  -- int64

pub record User : Type 0 where
  pub address : Text
  pub reservations : List Reservation

-- The statuses of a reservation; the kitty API may send any other text.
abbrev pub status_available : Text
status_available = codes "NONE"

abbrev pub status_reserved : Text
status_reserved = codes "reserved"

abbrev pub status_delivered : Text
status_delivered = codes "delivered"

abbrev pub status_all : Text
status_all = codes "all"
