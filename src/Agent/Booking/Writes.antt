-- ===== src/Agent/Booking/Writes.antt =====
-- The writes of MakeReservation (src/agent/reservation.go), in memory and in the database.
use teller.Common.{
  ◌≡◌, ◌≢◌, ◌⊎◌, inl, inr, refl, arith, some, none, Text, text_eq, text_eq_iff, text_eq_refl, ok,
  Result-cases, Option-cases, if◌then◌else◌, find, find-set,
}
use teller.Bolt.{Bolt}
use teller.Dbutil.{view}
use teller.Db.{Db}
use teller.Db.Access.{put_object}
use teller.Db.Buckets.{reservations_kitty_bkt, users_bkt}
use teller.Db.Laws.{put_object-ok}
use teller.Agent.Types.{Reservation, User}
use teller.Agent.Store.{add_user_with_tx, update_user_with_tx, update_reservation_with_tx}
use teller.Agent.Managers.{Agent, set_reservation, get_user, add_user}
use teller.Agent.Booking.{with_reservation, write_user, reserve, new_user, with_new_user, with_user}

module _ ⦃b : Bolt⦄ where
  -- A reservation and the user's list have been written, with the reservation in the map.
  pub record Written (kitty_id : Text) (r : Reservation) (u : User) (a : Agent) (db : Db)
      (a' : Agent) (db' : Db) : Type 0 where
    pub agent : a' ≡ set_reservation kitty_id r a
    pub reservations :
        (j : Text)
        → view db'.reservations_kitty j
          ≡ (if text_eq r.kitty_id j then some r else view db.reservations_kitty j)
    pub users :
        (j : Text)
        → view db'.users j
          ≡ (if text_eq u.address j then some (with_reservation u r) else view db.users j)
    pub rest : db' ≡ record db { reservations_kitty = db'.reservations_kitty; users = db'.users }

  write_user-ok :
      (u : User) (r : Reservation) (a : Agent) (db : Db) {v : Unit {0}} {a' : Agent} {db' : Db}
      → write_user u r a db ≡ (ok v, a', db')
      → (a' ≡ a) × (put_object users_bkt u.address (with_reservation u r) db ≡ ok (tt, db'))
  unfolding write_user update_user_with_tx
  write_user-ok u r a db h = (ground arith, ground arith)

  reserve-Written :
      (kitty_id : Text) (r : Reservation) (u : User) (a : Agent) (db : Db) {v : Unit {0}}
      {a' : Agent} {db' : Db}
      → reserve kitty_id r u a db ≡ (ok v, a', db')
      → Written kitty_id r u a db a' db'
  unfolding reserve update_reservation_with_tx
  reserve-Written kitty_id r u a db {v} {a'} {db'} h =
      elim (Result-cases (put_object reservations_kitty_bkt r.kitty_id r db)) [
        | inl (e, bad) ↦ absurd (ground arith)
        | inr ((w, db1), e) ↦
            let (t, wrote, views, ne) = put_object-ok reservations_kitty_bkt r.kitty_id r db e in
            let (same, next) =
              write_user-ok u r (set_reservation kitty_id r a) db1 {v = v} {a' = a'} {db' = db'}
                (ground arith) in
            let (t2, wrote2, views2, ne2) =
              put_object-ok users_bkt u.address (with_reservation u r) db1 next in
            record {
              agent = same;
              reservations = λ j. ground (arith, views j);
              users = λ j. ground (arith, views2 j);
              rest = ground arith;
            }
      ]

  -- The user is known under the address, and its list has been written.
  pub record ForUser (user_addr kitty_id : Text) (r : Reservation) (a : Agent) (db : Db)
      (a' : Agent) (db' : Db) : Type 0 where
    pub listed : User
    pub is_listed : find user_addr a'.users ≡ some listed
    pub was_listed :
        (find user_addr a.users ≡ some listed)
        ⊎ ((find user_addr a.users ≡ none) × (listed ≡ new_user user_addr))
    pub in_map :
        (j : Text)
        → find j a'.reservations ≡ (if text_eq kitty_id j then some r else find j a.reservations)
    pub stored :
        (j : Text)
        → view db'.reservations_kitty j
          ≡ (if text_eq r.kitty_id j then some r else view db.reservations_kitty j)
    pub user_stored : view db'.users listed.address ≡ some (with_reservation listed r)
    pub users_kept :
        (j : Text) → j ≢ listed.address → j ≢ user_addr → view db'.users j ≡ view db.users j
    pub rest : db' ≡ record db { reservations_kitty = db'.reservations_kitty; users = db'.users }

  known-ForUser :
      (user_addr kitty_id : Text) (r : Reservation) (u : User) (a : Agent) (db : Db) {v : Unit {0}}
      {a' : Agent} {db' : Db}
      → find user_addr a.users ≡ some u
      → reserve kitty_id r u a db ≡ (ok v, a', db')
      → ForUser user_addr kitty_id r a db a' db'
  unfolding set_reservation
  known-ForUser user_addr kitty_id r u a db known h =
      let w = reserve-Written kitty_id r u a db h in
      record {
        listed = u;
        is_listed = ground (arith, w.agent);
        was_listed = inl known;
        in_map = λ j. ground (arith, w.agent, find-set kitty_id j r a.reservations);
        stored = w.reservations;
        user_stored = ground (arith, w.users u.address, text_eq_refl u.address);
        users_kept = λ j ne ne'. ground (arith, w.users j, text_eq_iff u.address j);
        rest = w.rest;
      }

  new-ForUser :
      (user_addr kitty_id : Text) (r : Reservation) (a : Agent) (db : Db) {v : Unit {0}}
      {a' : Agent} {db' : Db}
      → find user_addr a.users ≡ none
      → with_new_user user_addr kitty_id r a db ≡ (ok v, a', db')
      → ForUser user_addr kitty_id r a db a' db'
  unfolding with_new_user add_user_with_tx add_user set_reservation
  new-ForUser user_addr kitty_id r a db {v} {a'} {db'} new h =
      let u = new_user user_addr in
      elim (Result-cases (put_object users_bkt user_addr u db)) [
        | inl (e, bad) ↦ absurd (ground arith)
        | inr ((x, db1), e) ↦
            let (t, wrote, views, ne) = put_object-ok users_bkt user_addr u db e in
            let next : reserve kitty_id r u (add_user u a) db1 ≡ (ok v, a', db') = ground arith in
            let w = reserve-Written kitty_id r u (add_user u a) db1 next in
            record {
              listed = u;
              is_listed =
                  ground (
                    arith,
                    w.agent,
                    find-set user_addr user_addr u a.users,
                    text_eq_refl user_addr,
                  );
              was_listed = inr (new, refl);
              in_map = λ j. ground (arith, w.agent, find-set kitty_id j r a.reservations);
              stored = λ j. ground (arith, w.reservations j);
              user_stored = ground (arith, w.users user_addr, text_eq_refl user_addr);
              users_kept = λ j ne ne'. ground (arith, w.users j, views j, text_eq_iff user_addr j);
              rest = ground (arith, w.rest);
            }
      ]

  pub with_user-ForUser :
      (user_addr kitty_id : Text) (r : Reservation) (a : Agent) (db : Db) {v : Unit {0}}
      {a' : Agent} {db' : Db}
      → with_user user_addr kitty_id r a db ≡ (ok v, a', db')
      → ForUser user_addr kitty_id r a db a' db'
  unfolding with_user get_user
  with_user-ForUser user_addr kitty_id r a db {v} {a'} {db'} h =
      elim (Option-cases (find user_addr a.users)) [
        | inl new ↦
            let made : with_new_user user_addr kitty_id r a db ≡ (ok v, a', db') = ground arith in
            new-ForUser user_addr kitty_id r a db new made
        | inr (u, known) ↦
            let made : reserve kitty_id r u a db ≡ (ok v, a', db') = ground arith in
            known-ForUser user_addr kitty_id r u a db known made
      ]
