-- ===== src/Teller/Reserving.antt =====
-- MakeReservationHandler of src/teller/handlers.go, from the call of MakeReservation to the commit.
pub mod Limits
use teller.Common.{
  Option, some, none, Text, Result, ok, err, Error, Bool, true, false, if◌then◌else◌,
}
use teller.Bolt.{Bolt}
use teller.Db.{Db}
use teller.Agent.Types.{Reservation, User}
use teller.Agent.Managers.{Agent, get_user, get_reservation_by_kitty_id, add_reservation}
use teller.Agent.Booking.{Outcome, make_reservation}

-- What the other services answer: Verifier.VerifyCode, iko.KittyIDFromString of the kitty's ID, the
-- kitty API's SetReservation and Verifier.SatisfyCode. `none` is no error.
pub record Answers : Type 0 where
  pub verified : Option Error
  pub kitty_id : Option Error
  pub kitty_api : Option Error
  pub satisfied : Option Error

-- The first error of the three calls after MakeReservation.
abbrev pub failure : Answers → Option Error
failure s = elim s.kitty_id [
  | some e ↦ some e
  | none ↦ elim s.kitty_api [ some e ↦ some e | none ↦ s.satisfied ]
]

module _ ⦃b : Bolt⦄ where
  -- tx.Commit(); its error is dropped. `db` is the database before the transaction.
  abbrev commit : Db → Db → Db
  commit db tx = if b.commits tx then tx else db

  -- The commit, or the deferred rollback.
  close : Db → Db → Result (Unit {0}) × Agent → Outcome
  close db tx (err e, a) = (err e, a, db)
  close db tx (ok v, a) = (ok tt, a, commit db tx)

  with_reservation_of : Answers → Text → User → Text → Agent → Db → Db → Outcome
  unfolding close
  with_reservation_of s user_addr u kitty_id a tx db =
      elim (get_reservation_by_kitty_id kitty_id a) [
        | err e ↦ (err e, a, db)
        | ok r ↦ elim (failure s) [
          | some e ↦ (err e, a, db)
          | none ↦ close db tx (add_reservation user_addr u kitty_id r a)
        ]
      ]

  -- After MakeReservation: `tx` is the state inside the transaction.
  after_booking : Answers → Text → Text → Db → Outcome → Outcome
  unfolding with_reservation_of
  after_booking s user_addr kitty_id db (err e, a, tx) = (err e, a, db)
  after_booking s user_addr kitty_id db (ok v, a, tx) = elim (get_user user_addr a) [
    | err e ↦ (err e, a, db)
    | ok u ↦ with_reservation_of s user_addr u kitty_id a tx db
  ]

  -- `tx` is the state inside the transaction in which the deposit address was bound.
  unfoldable pub reserve_box : Answers → Text → Text → Text → Text → Agent → Db → Db → Outcome
  unfolding after_booking
  reserve_box s deposit_addr user_addr kitty_id coin_type a tx db =
      after_booking s user_addr kitty_id db
        (make_reservation s.verified deposit_addr user_addr kitty_id coin_type a tx)
