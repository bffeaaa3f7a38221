-- ===== src/Agent/Starting.antt =====
-- New of src/agent/agent.go: the kitties that the kitty API offers, and the users of the database.
pub mod Loaded
pub mod Shared
use teller.Common.{
  ℕ, ◌-◌, ltb, i64_half, u64_mod, if◌then◌else◌, Option, none, some, List, [], ◌∷◌, Text, decimal,
  Result, ok, err, Error, object_not_exist, StringMap, set, find,
}
use teller.Bolt.{Bolt}
use teller.Db.{Db}
use teller.Agent.Types.{Reservation, User}
use teller.Agent.Store.{get_reservation_from_kitty_id, update_reservation, get_users}
use teller.Agent.Managers.{Agent, load_users, keys_of}

-- An entry of the kitty API's answer, with the fields that are read.
pub record Entry : Type 0 where
  pub id : ℕ  -- uint64
  pub reservation : Text
  pub price_btc : ℕ  -- int64
  pub price_sky : ℕ  -- int64

-- strconv.Itoa(int(n)) of an uint64
abbrev pub itoa : ℕ → Text
itoa n = if ltb n i64_half then decimal n else 45 ∷ decimal (u64_mod - n)

abbrev pub kitty_key : Entry → Text
kitty_key e = itoa e.id

abbrev pub offered : Entry → Reservation
offered e = record {
  deposit_address = [];
  owner_address = [];
  kitty_id = kitty_key e;
  status = e.reservation;
  price_btc = e.price_btc;
  price_sky = e.price_sky;
  coin_type = [];
  expire = 0;
}

-- "allow price to be controlled by the kitty api"
abbrev pub priced : Entry → Reservation → Reservation
priced e r = record r { price_sky = e.price_sky; price_btc = e.price_btc }

module _ ⦃b : Bolt⦄ where
  -- The map and the database; `none` is a panic.
  abbrev pub Loading : Type 0
  Loading = Option (StringMap Reservation × Db)

  unfoldable pub stored : Entry → StringMap Reservation → Result (Unit {0}) × Db → Loading
  stored e m (err x, db) = none
  stored e m (ok u, db) = some (set (kitty_key e) (offered e) m, db)

  -- The switch on the error of GetReservationFromKittyID.
  unfoldable pub found_or_stored : Entry → StringMap Reservation → Db → Result Reservation → Loading
  unfolding stored
  found_or_stored e m db (ok r) = some (set (kitty_key e) (priced e r) m, db)
  found_or_stored e m db (err object_not_exist) = stored e m (update_reservation (offered e) db)
  found_or_stored e m db (err x) = none

  unfoldable pub load_kitty : Entry → StringMap Reservation → Db → Loading
  unfolding found_or_stored
  load_kitty e m db = found_or_stored e m db (get_reservation_from_kitty_id (kitty_key e) db)

  unfoldable pub load_kitties : List Entry → StringMap Reservation → Db → Loading
  load_kitties [] m db = some (m, db)
  load_kitties (e ∷ es) m db = elim (load_kitty e m db) [
    | none ↦ none
    | some (m', db') ↦ load_kitties es m' db'
  ]

  -- The error of GetUsers is dropped.
  abbrev pub users_or_none : Result (List User) → List User
  users_or_none (err e) = []
  users_or_none (ok us) = us

  unfoldable pub with_users : Loading → Option (Agent × Db)
  with_users none = none
  with_users (some (m, db)) = some (
    record {
      reservations = m;
      users = load_users (users_or_none (get_users db));
      shared = keys_of (load_users (users_or_none (get_users db)));
    },
    db,
  )

  -- New; the answer of the kitty API has at most 100 entries.
  unfoldable pub new_agent : Result (List Entry) → Db → Option (Agent × Db)
  unfolding with_users
  new_agent (err e) db = none
  new_agent (ok entries) db = with_users (load_kitties entries [] db)
