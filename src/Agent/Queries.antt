-- ===== src/Agent/Queries.antt =====
-- The reads of src/agent/reservation.go that go to the database.
use teller.Common.{Text, is_empty, Result, ok, err, deposit_address_not_found, if◌then◌else◌}
use teller.Bolt.{Bolt}
use teller.Db.{Db}
use teller.Agent.Types.{Reservation}
use teller.Agent.Store.{get_reservation_from_kitty_id}

module _ ⦃b : Bolt⦄ where
  -- Agent.GetReservation
  unfoldable pub get_reservation : Text → Db → Result Reservation
  get_reservation kitty_id = get_reservation_from_kitty_id kitty_id

  unfoldable pub get_kitty_deposit_address : Text → Db → Result Text
  get_kitty_deposit_address kitty_id db = elim (get_reservation_from_kitty_id kitty_id db) [
    | err e ↦ err e
    | ok r ↦
        if is_empty r.deposit_address then err deposit_address_not_found else ok r.deposit_address
  ]
