-- ===== src/Agent/Booking.antt =====
-- Agent.MakeReservation (src/agent/reservation.go): the maps in memory and the caller's transaction.
pub mod Writes
pub mod Laws
pub mod Calls
use teller.Common.{
  Option, some, none, List, [], ◌∷◌, ◌++◌, Text, text_eq, Result, ok, err, Error, user_not_found,
  box_already_reserved, invalid_coin_type, invalid_reservation_type, reservation_not_found,
  if◌then◌else◌, find,
}
use teller.Bolt.{Bolt}
use teller.Db.{Db}
use teller.Scanner.Types.{coin_btc, coin_sky}
use teller.Agent.Types.{Reservation, User, status_available, status_reserved}
use teller.Agent.Store.{add_user_with_tx, update_user_with_tx, update_reservation_with_tx}
use teller.Agent.Managers.{
  Agent, make_reserved, get_reservation_by_kitty_id, set_reservation, get_user, add_user,
}

-- The switch on the coin type: the case of SKY is empty.
unfoldable pub set_coin : Text → Reservation → Result Reservation
set_coin coin_type r =
    if text_eq coin_type coin_sky
    then ok r
    else if text_eq coin_type coin_btc
    then ok (record r { coin_type = coin_type })
    else err invalid_coin_type

-- The switch on the status.
unfoldable pub check_available : Text → Reservation → Result Reservation
unfolding set_coin
check_available coin_type r =
    if text_eq r.status status_reserved
    then err box_already_reserved
    else if text_eq r.status status_available
    then set_coin coin_type r
    else err invalid_reservation_type

abbrev pub reserved_for : Text → Text → Reservation → Reservation
reserved_for deposit_addr user_addr r = record r {
  status = status_reserved;
  deposit_address = deposit_addr;
  owner_address = user_addr;
}

-- The user with one more reservation.
abbrev pub with_reservation : User → Reservation → User
with_reservation u r = record u { reservations = u.reservations ++ (r ∷ []) }

-- What a call leaves: its error, the agent, and the state inside the transaction.
module _ ⦃b : Bolt⦄ where
  abbrev pub Outcome : Type 0
  Outcome = Result (Unit {0}) × Agent × Db

  write_user : User → Reservation → Agent → Db → Outcome
  write_user u r a db = elim (update_user_with_tx (with_reservation u r) db) [
    | err e ↦ (err e, a, db)
    | ok (v, db') ↦ (ok tt, a, db')
  ]

  -- ChangeReservationStatus and the two addresses, then the reservation, then the user.
  reserve : Text → Reservation → User → Agent → Db → Outcome
  unfolding write_user
  reserve kitty_id r u a db = elim (update_reservation_with_tx r db) [
    | err e ↦ (err e, set_reservation kitty_id r a, db)
    | ok (v, db') ↦ write_user u r (set_reservation kitty_id r a) db'
  ]

  abbrev pub new_user : Text → User
  new_user user_addr = record { address = user_addr; reservations = [] }

  -- A new user is written to the database, then added to the map.
  with_new_user : Text → Text → Reservation → Agent → Db → Outcome
  unfolding reserve
  with_new_user user_addr kitty_id r a db = elim (add_user_with_tx (new_user user_addr) db) [
    | err e ↦ (err e, a, db)
    | ok (v, db') ↦ reserve kitty_id r (new_user user_addr) (add_user (new_user user_addr) a) db'
  ]

  -- From the look-up of the user on. The coin type is set in the map before.
  pub with_user : Text → Text → Reservation → Agent → Db → Outcome
  unfolding with_new_user reserve
  with_user user_addr kitty_id r a db = elim (get_user user_addr a) [
    | err user_not_found ↦ with_new_user user_addr kitty_id r a db
    | err e ↦ (err e, a, db)
    | ok u ↦ reserve kitty_id r u a db
  ]

  with_available : Text → Text → Text → Result Reservation → Agent → Db → Outcome
  unfolding with_user
  with_available deposit_addr user_addr kitty_id (err e) a db = (err e, a, db)
  with_available deposit_addr user_addr kitty_id (ok r) a db =
      with_user user_addr kitty_id (reserved_for deposit_addr user_addr r)
        (set_reservation kitty_id r a) db

  -- `verified` is the error that Verifier.VerifyCode returns, if it does.
  unfoldable pub make_reservation : Option Error → Text → Text → Text → Text → Agent → Db → Outcome
  unfolding with_available
  make_reservation (some e) deposit_addr user_addr kitty_id coin_type a db = (err e, a, db)
  make_reservation none deposit_addr user_addr kitty_id coin_type a db =
      elim (get_reservation_by_kitty_id kitty_id a) [
        | err e ↦ (err e, a, db)
        | ok r ↦ with_available deposit_addr user_addr kitty_id (check_available coin_type r) a db
      ]
