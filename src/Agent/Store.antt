-- ===== src/Agent/Store.antt =====
-- src/agent/store.go: reservations and users in the database.
use teller.Common.{
  List, [], ◌∷◌, ◌++◌, Text, text_eq, Result, ok, err, decode_failed, if◌then◌else◌,
}
use teller.Common.Txs.{Tx, pure, throw, ◌>>=◌, ◌>>◌}
use teller.Bolt.{Bolt}
use teller.Db.{Db}
use teller.Db.Access.{get_object, put_object, create_bucket, for_each_object, update, read_only}
use teller.Db.Buckets.{reservations_kitty_bkt, users_bkt, kitty_owner_bkt}
use teller.Agent.Types.{Reservation, User}

abbrev visit : {A : Type 0} → List A → Text → A → Result (List A)
visit l k a = ok (l ++ (a ∷ []))

abbrev visit_status : Text → List Reservation → Text → Reservation → Result (List Reservation)
visit_status status l k r = ok (if text_eq r.status status then l ++ (r ∷ []) else l)

module _ ⦃b : Bolt⦄ where
  create_buckets : Tx Db (Unit {0})
  create_buckets = do
    create_bucket reservations_kitty_bkt
    create_bucket users_bkt
    create_bucket kitty_owner_bkt

  unfoldable pub new_store : Db → Result (Unit {0}) × Db
  unfolding create_buckets
  new_store = update create_buckets

  unfoldable pub get_reservations : Db → Result (List Reservation)
  get_reservations = read_only (for_each_object reservations_kitty_bkt visit [])

  unfoldable pub get_reservation_from_kitty_id : Text → Db → Result Reservation
  get_reservation_from_kitty_id kitty_id = read_only (get_object reservations_kitty_bkt kitty_id)

  unfoldable pub get_reservations_by_status : Text → Db → Result (List Reservation)
  get_reservations_by_status status =
      read_only (for_each_object reservations_kitty_bkt (visit_status status) [])

  unfoldable pub add_user_with_tx : User → Tx Db (Unit {0})
  add_user_with_tx user = put_object users_bkt user.address user

  unfoldable pub add_user : User → Db → Result (Unit {0}) × Db
  unfolding add_user_with_tx
  add_user user = update (add_user_with_tx user)

  unfoldable pub get_users : Db → Result (List User)
  get_users = read_only (for_each_object users_bkt visit [])

  -- GetUser unmarshals a user that is there into a nil pointer, which encoding/json refuses.
  unmarshal_into_nil : User → Tx Db User
  unmarshal_into_nil user = throw decode_failed

  unfoldable pub get_user : Text → Db → Result User
  unfolding unmarshal_into_nil
  get_user user_addr = read_only (get_object users_bkt user_addr >>= unmarshal_into_nil)

  unfoldable pub get_reservation_user_from_kitty_id : Text → Db → Result User
  unfolding get_user
  get_reservation_user_from_kitty_id kitty_id db =
      elim (read_only (get_object kitty_owner_bkt kitty_id) db) [
        | err e ↦ err e
        | ok user_addr ↦ get_user user_addr db
      ]

  unfoldable pub get_user_reservations : Text → Db → Result (List Reservation)
  unfolding get_user
  get_user_reservations user_addr db = elim (get_user user_addr db) [
    | err e ↦ err e
    | ok user ↦ ok user.reservations
  ]

  unfoldable pub update_user_with_tx : User → Tx Db (Unit {0})
  update_user_with_tx user = put_object users_bkt user.address user

  unfoldable pub update_user : User → Db → Result (Unit {0}) × Db
  unfolding update_user_with_tx
  update_user user = update (update_user_with_tx user)

  unfoldable pub update_reservation_with_tx : Reservation → Tx Db (Unit {0})
  update_reservation_with_tx r = put_object reservations_kitty_bkt r.kitty_id r

  unfoldable pub update_reservation : Reservation → Db → Result (Unit {0}) × Db
  unfolding update_reservation_with_tx
  update_reservation r = update (update_reservation_with_tx r)

  put_reservations : List Reservation → Tx Db (Unit {0})
  put_reservations [] = pure tt
  put_reservations (r ∷ rs) = do put_object reservations_kitty_bkt r.kitty_id r; put_reservations rs

  unfoldable pub update_reservations : List Reservation → Db → Result (Unit {0}) × Db
  unfolding put_reservations
  update_reservations rs = update (put_reservations rs)
