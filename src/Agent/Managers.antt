-- ===== src/Agent/Managers.antt =====
-- src/agent/reservation.go and user.go: the maps in memory. Each holds pointers.
-- A change through a pointer is `set` under the key that it was found under; the users that New has
-- loaded share one pointer, and a change shows under each of their keys.
pub mod Loading
use teller.Common.{
  ltb, length, ℕ, ◌++◌, ◌∷◌, max_reservations_exceeded, Bool, Option, some, none, List, [], Text,
  text_eq, Result, ok, err, reservation_not_found, user_not_found, invalid_reservation_type,
  if◌then◌else◌, StringMap, find, set, map, ◌||◌,
}
use teller.Scanner.Store.{listed}
use teller.Agent.Types.{
  Reservation, User, status_available, status_reserved, status_delivered, status_all,
}

-- Agent, without its clients and its log.
pub record Agent : Type 0 where
  pub reservations : StringMap Reservation
  pub users : StringMap User
  pub shared : List Text  -- the keys of the users whose pointer is the one of the loop in New

abbrev pub make_reserved : Reservation → Reservation
make_reserved r = record r { status = status_reserved }

abbrev pub make_available : Reservation → Reservation
make_available r = record r {
  status = status_available;
  expire = 0;
  deposit_address = [];
  owner_address = [];
}

unfoldable pub get_reservation_by_kitty_id : Text → Agent → Result Reservation
get_reservation_by_kitty_id kitty_id a = elim (find kitty_id a.reservations) [
  | none ↦ err reservation_not_found
  | some r ↦ ok r
]

-- The change of a reservation that the map holds.
unfoldable pub set_reservation : Text → Reservation → Agent → Agent
set_reservation kitty_id r a = record a { reservations = set kitty_id r a.reservations }

unfoldable pub get_user : Text → Agent → Result User
get_user user_addr a = elim (find user_addr a.users) [ none ↦ err user_not_found | some u ↦ ok u ]

abbrev pub without : Text → List Text → List Text
without k [] = []
without k (j ∷ js) = let rest = without k js in if text_eq j k then rest else j ∷ rest

unfoldable pub add_user : User → Agent → Agent
add_user u a = record a { users = set u.address u a.users; shared = without u.address a.shared }

-- maxReservation and User.CanReserve
abbrev pub max_reservation : ℕ
max_reservation = 1

abbrev pub can_reserve : User → Bool
can_reserve u = ltb (length u.reservations) max_reservation

-- A change of the user under this key.
abbrev pub set_each : List Text → User → StringMap User → StringMap User
set_each [] u m = m
set_each (k ∷ ks) u m = set k u (set_each ks u m)

unfoldable pub change_user : Text → User → Agent → StringMap User
change_user user_addr u a =
    let each = set_each a.shared u a.users in
    if listed user_addr a.shared then each else set user_addr u a.users

-- AddReservation of a user and a reservation that the maps have under these keys.
unfoldable pub add_reservation :
    Text → User → Text → Reservation → Agent → Result (Unit {0}) × Agent
add_reservation user_addr u kitty_id r a =
    if can_reserve u
    then (
      ok tt,
      record a {
        reservations = set kitty_id (make_reserved r) a.reservations;
        users =
            change_user user_addr
              (record u { reservations = u.reservations ++ (make_reserved r ∷ []) }) a;
      },
    )
    else (err max_reservations_exceeded, a)

values : StringMap Reservation → List Reservation
values [] = []
values ((k, r) ∷ m) = r ∷ values m

with_status : Text → List Reservation → List Reservation
with_status status [] = []
with_status status (r ∷ rs) =
    let rest = with_status status rs in if text_eq r.status status then r ∷ rest else rest

-- Agent.GetReservations, with the two functions of the manager that it calls.
unfoldable pub get_reservations : Text → Agent → Result (List Reservation)
unfolding values with_status
get_reservations status a =
    if text_eq status status_available
      || (text_eq status status_reserved || text_eq status status_delivered)
    then ok (with_status status (values a.reservations))
    else if text_eq status status_all
    then ok (values a.reservations)
    else err invalid_reservation_type

-- The loop of New over the users in the database. `&u` is the address of its one variable, so each
-- entry that it puts into the map is a pointer to this variable.
pub record UserLoop : Type 0 where
  pub variable : Option User
  pub pointers : StringMap (Unit {0})

unfoldable pub user_rounds : List User → UserLoop → UserLoop
user_rounds [] s = s
user_rounds (u ∷ us) s =
    user_rounds us (record { variable = some u; pointers = set u.address tt s.pointers })

-- The map as its readers see it: each pointer leads to what the variable holds in the end.
unfoldable pub through : Option User → StringMap (Unit {0}) → StringMap User
through none m = []
through (some u) [] = []
through (some u) ((k, p) ∷ m) = (k, u) ∷ through (some u) m

unfoldable pub load_users : List User → StringMap User
unfolding user_rounds through
load_users us =
    let s = user_rounds us (record { variable = none; pointers = [] }) in
    through s.variable s.pointers

-- The keys under which it has put its pointer.
unfoldable pub keys_of : StringMap User → List Text
keys_of [] = []
keys_of ((k, u) ∷ m) = k ∷ keys_of m
