-- ===== src/Teller/Reserving/Limits.antt =====
-- A user who has a reservation already, in MakeReservationHandler (src/teller/handlers.go).
use teller.Common.{
  ◌≡◌, inl, inr, refl, arith, false, some, Text, ok, err, Error, Result-cases, Option-cases, find,
  max_reservations_exceeded,
}
use teller.Bolt.{Bolt}
use teller.Db.{Db}
use teller.Agent.Types.{User}
use teller.Agent.Managers.{
  Agent, can_reserve, get_user, get_reservation_by_kitty_id, add_reservation,
}
use teller.Agent.Booking.{Outcome, make_reservation}
use teller.Agent.Booking.Laws.{make_reservation-Booked, reserved_once}
use teller.Teller.Reserving.{
  Answers, failure, close, with_reservation_of, after_booking, reserve_box,
}

module _ ⦃b : Bolt⦄ where
  -- The handler fails and rolls back, and the agent stays as MakeReservation has left it.
  abbrev pub Fails : Outcome → Agent → Db → Type 0
  Fails r a db = (e : Error) × (r ≡ (err e, a, db))

  with_reservation_of_full :
      (s : Answers) (user_addr : Text) (u : User) (kitty_id : Text) (a : Agent) (tx db : Db)
      → can_reserve u ≡ false
      → Fails (with_reservation_of s user_addr u kitty_id a tx db) a db
  unfolding with_reservation_of close add_reservation
  with_reservation_of_full s user_addr u kitty_id a tx db full =
      elim (Result-cases (get_reservation_by_kitty_id kitty_id a)) [
        | inl (e, missing) ↦ (e, ground arith)
        | inr (r, found) ↦ elim (Option-cases (failure s)) [
          | inl fine ↦ (max_reservations_exceeded, ground arith)
          | inr (e, failed) ↦ (e, ground arith)
        ]
      ]

  after_booking_full :
      (s : Answers) (user_addr kitty_id : Text) (u : User) (a : Agent) (tx db : Db)
      → find user_addr a.users ≡ some u
      → can_reserve u ≡ false
      → Fails (after_booking s user_addr kitty_id db (ok tt, a, tx)) a db
  unfolding after_booking get_user
  after_booking_full s user_addr kitty_id u a tx db known full =
      let (e, fails) = with_reservation_of_full s user_addr u kitty_id a tx db full in
      (e, ground (arith, fails))

  reserve_box_full :
      (s : Answers) (deposit_addr user_addr kitty_id coin_type : Text) (a : Agent) (tx db : Db)
      (r : Outcome) {u : User}
      → find user_addr a.users ≡ some u
      → can_reserve u ≡ false
      → make_reservation s.verified deposit_addr user_addr kitty_id coin_type a tx ≡ r
      → Fails (reserve_box s deposit_addr user_addr kitty_id coin_type a tx db) r.1 db
  unfolding reserve_box after_booking
  reserve_box_full s deposit_addr user_addr kitty_id coin_type a tx db (err e, a1, tx1) known full
        h =
      (e, ground arith)
  reserve_box_full s deposit_addr user_addr kitty_id coin_type a tx db (ok v, a1, tx1) {u} known
        full h =
      let bk =
        make_reservation-Booked s.verified deposit_addr user_addr kitty_id coin_type a tx h in
      let (e, fails) =
        after_booking_full s user_addr kitty_id u a1 tx1 db
          (ground (arith, bk.is_listed, bk.was_listed)) full in
      (e, ground (arith, fails))

  -- When the agent knows a user who may not reserve any more, MakeReservationHandler fails for
  -- this user from the call of MakeReservation on, whatever the kitty, the coin type and the
  -- answers of the other services, and the database is as it was before the transaction.
  pub reserve_box_limited :
      (s : Answers) (deposit_addr user_addr kitty_id coin_type : Text) (a : Agent) (tx db : Db)
      {u : User}
      → find user_addr a.users ≡ some u
      → can_reserve u ≡ false
      → (e : Error) × (a' : Agent) × (reserve_box s deposit_addr user_addr kitty_id coin_type a tx
            db
          ≡ (err e, a', db))
  reserve_box_limited s deposit_addr user_addr kitty_id coin_type a tx db known full =
      let (e, fails) =
        reserve_box_full s deposit_addr user_addr kitty_id coin_type a tx db
          (make_reservation s.verified deposit_addr user_addr kitty_id coin_type a tx) known full
          refl in
      (e, _, fails)

  -- When the agent knows a user who may not reserve any more and MakeReservation succeeds for
  -- this user inside the transaction, the handler fails, the database is as it was before and
  -- the agent stays as MakeReservation has left it; with this agent the handler fails on the
  -- same kitty for every user, coin type, state of the database and answers, and changes
  -- nothing.
  pub reserve_box_stuck :
      (s s' : Answers)
      (deposit_addr user_addr kitty_id coin_type deposit_addr' user_addr' coin_type' : Text)
      (a : Agent) (tx db tx' later : Db) {u : User} {v : Unit {0}} {a1 : Agent} {tx1 : Db}
      → find user_addr a.users ≡ some u
      → can_reserve u ≡ false
      → make_reservation s.verified deposit_addr user_addr kitty_id coin_type a tx ≡ (ok v, a1, tx1)
      → Fails (reserve_box s deposit_addr user_addr kitty_id coin_type a tx db) a1 db
        × Fails (reserve_box s' deposit_addr' user_addr' kitty_id coin_type' a1 tx' later) a1 later
  unfolding reserve_box after_booking
  reserve_box_stuck s s' deposit_addr user_addr kitty_id coin_type deposit_addr' user_addr'
        coin_type' a tx db tx' later known full h =
      let (e, again) =
        reserved_once s.verified s'.verified deposit_addr user_addr kitty_id coin_type deposit_addr'
          user_addr' coin_type' a tx tx' h in
      (
        reserve_box_full s deposit_addr user_addr kitty_id coin_type a tx db _ known full h,
        (e, ground (arith, again)),
      )
