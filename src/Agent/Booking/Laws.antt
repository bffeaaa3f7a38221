-- ===== src/Agent/Booking/Laws.antt =====
-- What MakeReservation (src/agent/reservation.go) changes in memory and in the database.
use teller.Common.{
  ◌≡◌, ◌≢◌, ◌⊎◌, inl, inr, refl, arith, Option, some, none, Text, text_eq, text_eq_iff,
  text_eq_refl, ok, err, Error, Result-cases, Option-cases, box_already_reserved, if◌then◌else◌,
  find, find-set,
}
use teller.Bolt.{Bolt}
use teller.Dbutil.{view}
use teller.Db.{Db}
use teller.Scanner.Types.{coin_sky}
use teller.Agent.Types.{Reservation, User, status_available, status_reserved}
use teller.Agent.Managers.{Agent, get_reservation_by_kitty_id, set_reservation}
use teller.Agent.Booking.{
  set_coin, check_available, reserved_for, with_reservation, new_user, with_user, with_available,
  make_reservation,
}
use teller.Agent.Booking.Writes.{with_user-ForUser}

-- The coin type of a reservation after the switch: SKY leaves it as it was.
abbrev pub coin_after : Text → Reservation → Reservation
coin_after coin_type r =
    if text_eq coin_type coin_sky then r else record r { coin_type = coin_type }

pub check_available-ok :
    (coin_type : Text) (r : Reservation) {r' : Reservation}
    → check_available coin_type r ≡ ok r'
    → (r.status ≡ status_available) × (r' ≡ coin_after coin_type r)
unfolding check_available set_coin
check_available-ok coin_type r h = ground (arith, text_eq_iff r.status status_available)

module _ ⦃b : Bolt⦄ where
  -- What a reservation that went through has read, and leaves behind. `listed` is the user that is
  -- known under the address now: the one that was, or a new one.
  pub record Booked (deposit_addr user_addr kitty_id coin_type : Text) (a : Agent) (db : Db)
      (a' : Agent) (db' : Db) : Type 0 where
    pub before : Reservation
    pub found : find kitty_id a.reservations ≡ some before
    pub was_available : before.status ≡ status_available
    pub listed : User
    pub is_listed : find user_addr a'.users ≡ some listed
    pub was_listed :
        (find user_addr a.users ≡ some listed)
        ⊎ ((find user_addr a.users ≡ none) × (listed ≡ new_user user_addr))
    pub in_map :
        (j : Text)
        → find j a'.reservations ≡ (
            if text_eq kitty_id j
            then some (reserved_for deposit_addr user_addr (coin_after coin_type before))
            else find j a.reservations)
    pub stored :
        (j : Text)
        → view db'.reservations_kitty j ≡ (
            if text_eq before.kitty_id j
            then some (reserved_for deposit_addr user_addr (coin_after coin_type before))
            else view db.reservations_kitty j)
    pub user_stored :
        view db'.users listed.address
        ≡ some (
            with_reservation listed
              (reserved_for deposit_addr user_addr (coin_after coin_type before)))
    pub users_kept :
        (j : Text) → j ≢ listed.address → j ≢ user_addr → view db'.users j ≡ view db.users j
    pub rest : db' ≡ record db { reservations_kitty = db'.reservations_kitty; users = db'.users }

  -- When MakeReservation succeeds, the kitty was in the map of reservations and available; there
  -- and in the database its reservation is reserved now for the user, with the deposit address
  -- and the coin type, which for SKY is the one that it had; the user is the one of the map, or
  -- a new one, and its stored list is that of the map's user with this reservation at the end;
  -- other reservations and users are as they were, and so is every other bucket.
  pub make_reservation-Booked :
      (verified : Option Error) (deposit_addr user_addr kitty_id coin_type : Text) (a : Agent)
      (db : Db) {v : Unit {0}} {a' : Agent} {db' : Db}
      → make_reservation verified deposit_addr user_addr kitty_id coin_type a db ≡ (ok v, a', db')
      → Booked deposit_addr user_addr kitty_id coin_type a db a' db'
  unfolding make_reservation with_available get_reservation_by_kitty_id set_reservation
  make_reservation-Booked (some e) deposit_addr user_addr kitty_id coin_type a db h =
      absurd (ground arith)
  make_reservation-Booked none deposit_addr user_addr kitty_id coin_type a db {v} {a'} {db'} h =
      elim (Option-cases (find kitty_id a.reservations)) [
        | inl missing ↦ absurd (ground arith)
        | inr (before, found) ↦ elim (Result-cases (check_available coin_type before)) [
          | inl (e, bad) ↦ absurd (ground arith)
          | inr (r, free) ↦
              let (was, made) = check_available-ok coin_type before free in
              let a1 = set_reservation kitty_id r a in
              let next : with_user user_addr kitty_id (reserved_for deposit_addr user_addr r) a1 db
                  ≡ (ok v, a', db') =
                ground arith in
              let f =
                with_user-ForUser user_addr kitty_id (reserved_for deposit_addr user_addr r) a1 db
                  next in
              record {
                before = before;
                found = found;
                was_available = was;
                listed = f.listed;
                is_listed = f.is_listed;
                was_listed = f.was_listed;
                in_map = λ j. ground (arith, f.in_map j, find-set kitty_id j r a.reservations);
                stored = λ j. ground (arith, f.stored j);
                user_stored = ground (arith, f.user_stored);
                users_kept = f.users_kept;
                rest = f.rest;
              }
        ]
      ]

  reserved_refused :
      (verified : Option Error) (deposit_addr user_addr kitty_id coin_type : Text) (a : Agent)
      (db : Db) {r : Reservation}
      → find kitty_id a.reservations ≡ some r
      → r.status ≡ status_reserved
      → (e : Error) × (make_reservation verified deposit_addr user_addr kitty_id coin_type a db
          ≡ (err e, a, db))
  unfolding make_reservation with_available get_reservation_by_kitty_id check_available
  reserved_refused (some e) deposit_addr user_addr kitty_id coin_type a db {r} held st = (e, refl)
  reserved_refused none deposit_addr user_addr kitty_id coin_type a db {r} held st =
      (box_already_reserved, ground (arith, text_eq_refl status_reserved))

  -- Once MakeReservation has succeeded for a kitty, a later call for the same kitty, by any
  -- user, with any coin type and on any state of the database, fails and changes neither the
  -- agent nor the database.
  pub reserved_once :
      (verified verified' : Option Error)
      (deposit_addr user_addr kitty_id coin_type deposit_addr' user_addr' coin_type' : Text)
      (a : Agent) (db later : Db) {v : Unit {0}} {a' : Agent} {db' : Db}
      → make_reservation verified deposit_addr user_addr kitty_id coin_type a db ≡ (ok v, a', db')
      → (e : Error) × (make_reservation verified' deposit_addr' user_addr' kitty_id coin_type' a'
            later
          ≡ (err e, a', later))
  reserved_once verified verified' deposit_addr user_addr kitty_id coin_type deposit_addr'
        user_addr' coin_type' a db later {a' = a'} h =
      let bk = make_reservation-Booked verified deposit_addr user_addr kitty_id coin_type a db h in
      let r = reserved_for deposit_addr user_addr (coin_after coin_type bk.before) in
      reserved_refused verified' deposit_addr' user_addr' kitty_id coin_type' a' later {r = r}
        (ground (arith, bk.in_map kitty_id, text_eq_refl kitty_id)) refl
