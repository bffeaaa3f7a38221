-- ===== src/Agent/Starting/Shared.antt =====
-- The pointer that the users of New (src/agent/agent.go) share.
use teller.Common.{
  ◌≡◌, inl, inr, ap, ◌∙◌, arith, true, false, Option-cases, some, List, [], ◌∷◌, ◌++◌,
  length-append_one, Text, ok, StringMap, find, find-set, Any,
}
use teller.Bolt.{Bolt}
use teller.Db.{Db}
use teller.Scanner.Store.{listed}
use teller.Agent.Types.{Reservation, User}
use teller.Agent.Store.{get_users}
use teller.Agent.Managers.{
  Agent, make_reserved, can_reserve, set_each, change_user, add_reservation, load_users, keys_of,
}
use teller.Agent.Managers.Loading.{load_users_all_last}
use teller.Agent.Starting.{Entry, users_or_none, load_kitties, with_users, new_agent}

find-keys_of :
    (m : StringMap User) (k : Text) (u : User) → find k m ≡ some u → listed k (keys_of m) ≡ true
unfolding find keys_of listed
find-keys_of [] k u h = absurd (ground arith)
find-keys_of ((j, v) ∷ m) k u h = ground (arith, find-keys_of m k u)

find-set_each :
    (ks : List Text) (u : User) (m : StringMap User) (k : Text)
    → listed k ks ≡ true
    → find k (set_each ks u m) ≡ some u
unfolding listed
find-set_each [] u m k h = absurd (ground arith)
find-set_each (j ∷ ks) u m k h =
    ground (arith, find-set j k u (set_each ks u m), find-set_each ks u m k)

-- The user after a reservation.
abbrev pub reserved_by : User → Reservation → User
reserved_by u r = record u { reservations = u.reservations ++ (make_reserved r ∷ []) }

reserved_by-full : (u : User) (r : Reservation) → can_reserve (reserved_by u r) ≡ false
reserved_by-full u r = ground (arith, length-append_one u.reservations (make_reserved r))

-- A change under one shared key is a change under each.
change_user-shared :
    (a : Agent) (k j : Text) (u v w : User)
    → a.shared ≡ keys_of a.users
    → find k a.users ≡ some v
    → find j a.users ≡ some w
    → find j (change_user k u a) ≡ some u
unfolding change_user
change_user-shared a k j u v w same at_k at_j = ground (
  arith,
  same,
  find-keys_of a.users k v at_k,
  find-set_each a.shared u a.users j (ap (listed j) same ∙ find-keys_of a.users j w at_j),
)

add_reservation-users :
    (k kitty_id : Text) (u : User) (r : Reservation) (a : Agent) {done : Unit {0}} {a' : Agent}
    → add_reservation k u kitty_id r a ≡ (ok done, a')
    → a'.users ≡ change_user k (reserved_by u r) a
unfolding add_reservation
add_reservation-users k kitty_id u r a h = ground arith

module _ ⦃b : Bolt⦄ where
  new_agent-users :
      (es : List Entry) (db : Db) {a : Agent} {db' : Db}
      → new_agent (ok es) db ≡ some (a, db')
      → (a.users ≡ load_users (users_or_none (get_users db'))) × (a.shared ≡ keys_of a.users)
  unfolding new_agent with_users
  new_agent-users es db h = elim (Option-cases (load_kitties es [] db)) [
    | inl stuck ↦ absurd (ground arith)
    | inr ((m, db1), went) ↦ (ground arith, ground arith)
  ]

  -- After New has built the agent from a database that reads back some users, of which z is the
  -- last, a reservation that AddReservation adds for any one of them, u, is at every one of
  -- them, w: the map has under the address of w the user z with this reservation, marked as
  -- reserved, added to those of z in the database, and this user can reserve no further kitty. u
  -- and w may be the same or differ, and either may be z.
  pub new_agent_one_limit :
      (es : List Entry) (db : Db) (us : List User) (z u v w : User) (kitty_id : Text)
      (r : Reservation) {a : Agent} {db' : Db} {done : Unit {0}} {a' : Agent}
      → new_agent (ok es) db ≡ some (a, db')
      → get_users db' ≡ ok (us ++ (z ∷ []))
      → Any (λ (x : User). x ≡ u) (us ++ (z ∷ []))
      → Any (λ (x : User). x ≡ w) (us ++ (z ∷ []))
      → find u.address a.users ≡ some v
      → add_reservation u.address v kitty_id r a ≡ (ok done, a')
      → (find w.address a'.users ≡ some (reserved_by z r)) × (can_reserve (reserved_by z r) ≡ false)
  new_agent_one_limit es db us z u v w kitty_id r {a} {db'} {a' = a'} made read u_in w_in at_u h =
      let (loaded, shared) = new_agent-users es db made in
      let users : a.users ≡ load_users (us ++ (z ∷ [])) = ground (arith, loaded, read) in
      let at_z : (x : User)
          → Any (λ (y : User). y ≡ x) (us ++ (z ∷ []))
          → find x.address a.users ≡ some z =
        λ x x_in. ap (find x.address) users ∙ load_users_all_last us z x x_in in
      let same : v ≡ z = ground (arith, at_u, at_z u u_in) in
      let changed =
        change_user-shared a u.address w.address (reserved_by v r) v z shared at_u (at_z w w_in) in
      (
        ap (find w.address) (add_reservation-users u.address kitty_id v r a h)
            ∙ changed
            ∙ ap (λ x. some (reserved_by x r)) same,
        reserved_by-full z r,
      )
