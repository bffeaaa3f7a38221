-- ===== src/Agent/Booking/Calls.antt =====
-- Many calls of MakeReservation (src/agent/reservation.go) on one agent.
use teller.Common.{
  ◌≡◌, ap, ◌∙◌, sym, subst, arith, Option, Option-cases, some, List, [], ◌∷◌, Text, text_eq,
  text_eq_iff, text_eq_refl, Result, Result-cases, ok, err, Error, inl, inr, Bool-cases, true,
  false, refl, All, AllDiffer, All-map, find, find-set,
}
use teller.Bolt.{Bolt}
use teller.Db.{Db}
use teller.Agent.Types.{Reservation, User, status_available, status_reserved}
use teller.Agent.Store.{add_user_with_tx, update_user_with_tx, update_reservation_with_tx}
use teller.Agent.Managers.{Agent, get_reservation_by_kitty_id, set_reservation, get_user, add_user}
use teller.Agent.Booking.{
  check_available, reserved_for, with_reservation, reserve, write_user, new_user, with_new_user,
  with_user, with_available, make_reservation,
}
use teller.Agent.Booking.Laws.{coin_after, check_available-ok, make_reservation-Booked}

pub record BookingCall : Type 0 where
  pub verified : Option Error
  pub deposit_addr : Text
  pub user_addr : Text
  pub kitty_id : Text
  pub coin_type : Text

abbrev pub booked : Result (Unit {0}) → Text → List Text → List Text
booked (err e) k rest = rest
booked (ok u) k rest = k ∷ rest

-- The kitty is reserved in the map.
abbrev pub IsHeld : Agent → Text → Type 0
IsHeld a k = (r : Reservation) × (find k a.reservations ≡ some r) × (r.status ≡ status_reserved)

set_reservation-IsHeld :
    (k : Text) (r : Reservation) (a : Agent) (j : Text)
    → (text_eq k j ≡ true → r.status ≡ status_reserved)
    → IsHeld a j
    → IsHeld (set_reservation k r a) j
unfolding set_reservation
set_reservation-IsHeld k r a j st (q, here, held) = elim (Bool-cases (text_eq k j)) [
  | inl same ↦ (r, ground (arith, find-set k j r a.reservations), st same)
  | inr other ↦ (q, ground (arith, find-set k j r a.reservations), held)
]

statuses_differ : text_eq status_available status_reserved ≡ false
unfolding text_eq
statuses_differ = refl

status_available_lem :
    (k j : Text) (before : Reservation) (a : Agent)
    → text_eq k j ≡ true
    → find k a.reservations ≡ some before
    → before.status ≡ status_available
    → ¬ IsHeld a j
status_available_lem k j before a same found was (q, here, held) =
    let key : find k a.reservations ≡ find j a.reservations =
      ap (λ x. find x a.reservations) ((text_eq_iff k j).0 same) in
    let same_status : before.status ≡ q.status = ground (arith, key, found, here) in
    ground (
      arith,
      statuses_differ,
      text_eq_iff status_available status_reserved,
      sym was ∙ same_status ∙ held,
    )

module _ ⦃b : Bolt⦄ where
  call : BookingCall → Agent → Db → Result (Unit {0}) × Agent × Db
  call c a db = make_reservation c.verified c.deposit_addr c.user_addr c.kitty_id c.coin_type a db

  -- The kitties that the calls reserve, each on its own state of the database.
  unfoldable pub book_all : List (BookingCall × Db) → Agent → List Text
  unfolding call
  book_all [] a = []
  book_all ((c, db) ∷ calls) a =
      let (r, a', db') = call c a db in booked r c.kitty_id (book_all calls a')

  reserve-IsHeld :
      (k : Text) (r : Reservation) (u : User) (a : Agent) (db : Db) (j : Text)
      → r.status ≡ status_reserved
      → IsHeld a j
      → IsHeld (reserve k r u a db).1 j
  unfolding reserve write_user
  reserve-IsHeld k r u a db j st h =
      let kept = set_reservation-IsHeld k r a j (λ e. st) h in
      elim (Result-cases (update_reservation_with_tx r db)) [
        | inl (e, bad) ↦ rw (reserve, bad) kept
        | inr ((v, db1), good) ↦
            elim (Result-cases (update_user_with_tx (with_reservation u r) db1)) [
              | inl (e, bad) ↦ rw (reserve, good, write_user, bad) kept
              | inr ((w, db2), fine) ↦ rw (reserve, good, write_user, fine) kept
            ]
      ]

  with_user-IsHeld :
      (addr k : Text) (r : Reservation) (a : Agent) (db : Db) (j : Text)
      → r.status ≡ status_reserved
      → IsHeld a j
      → IsHeld (with_user addr k r a db).1 j
  unfolding with_user with_new_user get_user add_user
  with_user-IsHeld addr k r a db j st h = elim (Option-cases (find addr a.users)) [
    | inr (u, known) ↦ rw (with_user, get_user, known) (reserve-IsHeld k r u a db j st h)
    | inl unknown ↦ elim (Result-cases (add_user_with_tx (new_user addr) db)) [
      | inl (e, bad) ↦ rw (with_user, get_user, unknown, with_new_user, bad) h
      | inr ((v, db1), good) ↦
          rw (with_user, get_user, unknown, with_new_user, good)
            (reserve-IsHeld k r (new_user addr) (add_user (new_user addr) a) db1 j st h)
    ]
  ]

  -- No call frees a kitty that is reserved.
  call-IsHeld :
      (c : BookingCall) (a : Agent) (db : Db) (j : Text) → IsHeld a j → IsHeld (call c a db).1 j
  unfolding call make_reservation with_available get_reservation_by_kitty_id
  call-IsHeld c a db j h = elim (Option-cases c.verified) [
    | inr (e, refused) ↦ rw (call, refused) h
    | inl verified ↦ elim (Option-cases (find c.kitty_id a.reservations)) [
      | inl missing ↦ rw (call, verified, make_reservation, get_reservation_by_kitty_id, missing) h
      | inr (before, found) ↦ elim (Result-cases (check_available c.coin_type before)) [
        | inl (e, bad) ↦
            rw
              (
                call, verified, make_reservation, get_reservation_by_kitty_id, found, bad,
                with_available,
              )
              h
        | inr (r, free) ↦
            let (was, made) = check_available-ok c.coin_type before free in
            let not_this : text_eq c.kitty_id j ≡ true → r.status ≡ status_reserved =
              λ same. absurd (status_available_lem c.kitty_id j before a same found was h) in
            rw
              (
                call, verified, make_reservation, get_reservation_by_kitty_id, found, free,
                with_available,
              )
              (with_user-IsHeld c.user_addr c.kitty_id (reserved_for c.deposit_addr c.user_addr r)
                (set_reservation c.kitty_id r a) db j refl
                (set_reservation-IsHeld c.kitty_id r a j not_this h))
      ]
    ]
  ]

  call-ok :
      (c : BookingCall) (a : Agent) (db : Db) {u : Unit {0}}
      → (call c a db).0 ≡ ok u
      → (¬ IsHeld a c.kitty_id) × IsHeld (call c a db).1 c.kitty_id
  unfolding call
  call-ok c a db {u} good =
      let (r, a', db') = call c a db in
      let bk =
        make_reservation-Booked c.verified c.deposit_addr c.user_addr c.kitty_id c.coin_type a db
          {v = u} {a' = a'} {db' = db'} (ground arith) in
      (
        status_available_lem c.kitty_id c.kitty_id bk.before a (text_eq_refl c.kitty_id) bk.found
            bk.was_available,
        (
          reserved_for c.deposit_addr c.user_addr (coin_after c.coin_type bk.before),
          ground (arith, bk.in_map c.kitty_id, text_eq_refl c.kitty_id),
          refl,
        ),
      )

  -- Whatever calls of MakeReservation are made on an agent, by any users and each on any state
  -- of the database, and whichever of them fail: the kitties of those that succeed all differ,
  -- and none of them was reserved in the map at the start.
  pub book_all-AllDiffer :
      (calls : List (BookingCall × Db)) (a : Agent)
      → AllDiffer (book_all calls a) × All (λ k. ¬ IsHeld a k) (book_all calls a)
  unfolding book_all
  book_all-AllDiffer [] a = (tt, tt)
  book_all-AllDiffer ((c, db) ∷ calls) a =
      let (r, a', db') = call c a db in
      let rest = book_all calls a' in
      let ih = book_all-AllDiffer calls a' in
      let free = All-map rest (λ k f h. f (call-IsHeld c a db k h)) ih.1 in
      elim (Result-cases r) [
        | inl (e, bad) ↦ rw (bad) (ih.0, free)
        | inr (u, good) ↦
            let (was_free, held) = call-ok c a db {u = u} good in
            rw (good) (
              (All-map rest (λ k f same. f (subst (IsHeld a') same held)) ih.1, ih.0),
              (was_free, free),
            )
      ]
