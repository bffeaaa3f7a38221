-- ===== src/Tests/Handlers.antt =====
-- The HTTP handlers, the monitor, and the agent as it starts.
use teller.Common.{
  ◌≡◌, ◌↔◌, refl, arith, inl, inr, Any, true, false, Text, ◌++◌, some, none, [], ◌∷◌, text_eq, ok,
  codes, decimal, digits, find, set,
}
use teller.Dbutil.{get_bucket_object, put_bucket_value, for_each, fold_entries}
use teller.Db.{Db}
use teller.Db.Access.{get_object, put_object, read_only, update, for_each_object}
use teller.Scanner.Types.{coin_btc}
use teller.Agent.Types.{Reservation, User, status_available}
use teller.Agent.Booking.{new_user}
use teller.Scanner.Store.{listed}
use teller.Agent.Managers.{
  Agent, load_users, user_rounds, through, set_each, change_user, add_reservation, can_reserve,
  make_reserved, keys_of,
}
use teller.Agent.Store.{
  get_reservation_from_kitty_id, update_reservation_with_tx, update_reservation, get_users,
}
use teller.Agent.Starting.{
  Entry, offered, priced, stored, found_or_stored, load_kitty, load_kitties, with_users, new_agent,
}
use teller.Agent.Starting.Shared.{reserved_by, new_agent_one_limit}
use teller.Agent.Starting.Loaded.{Loads, new_agent-Loads}
use teller.Exchange.Types.{wait_decide}
use teller.Exchange.Deposit.{status_string, new_status_from_str}
use teller.Exchange.Store.Queries.{get_deposit_info_array}
use teller.Exchange.Facade.{DepositStatusDetail, detail_of, details, get_deposit_status_detail}
use teller.Teller.Http.{answered, method_get, method_post}
use teller.Teller.Http.Reserve.{ReservationRequest, request, Setting, make_reservation_handler}
use teller.Teller.Http.Reserve.Unanswered.{Unanswered, make_reservation_handler-Unanswered}
use teller.Monitor.{by_status, deposit_status}
use teller.Monitor.Shown.{Stored, deposit_status_iff}
use teller.Tests.Memory.{memory}
use teller.Tests.Exchanges.{table, addr, kitty, reservation, info_db, di, bound_db}
use teller.Tests.Services.{manager, free_db}

abbrev setting : Setting
setting = record {
  decodes = λ a. true;
  bind_enabled = true;
  coins = coin_btc ∷ [];
  stand_ins = λ c. none;
  begins = true;
  now = 5;
  answers = record { verified = none; kitty_id = none; kitty_api = none; satisfied = none };
}

abbrev asked : ReservationRequest
asked = record { user_address = addr; kitty_id = 7; coin_type = coin_btc; verification_code = addr }

abbrev new_kitty : Agent
new_kitty = record { reservations = (kitty, reservation) ∷ []; users = []; shared = [] }

make_reservation_handler-Unanswered_example : Unanswered new_kitty free_db (
    make_reservation_handler setting method_post
      (codes "application/json")
      (request asked)
      (manager (addr ∷ []))
      new_kitty
      free_db)
make_reservation_handler-Unanswered_example =
    make_reservation_handler-Unanswered setting method_post (codes "application/json")
      (request asked) (manager (addr ∷ [])) new_kitty free_db (λ c. refl)

one_shown :
    deposit_status method_get (status_string wait_decide) info_db ≡ answered (detail_of di ∷ [])
unfolding deposit_status by_status new_status_from_str status_string get_deposit_status_detail
    get_deposit_info_array read_only for_each_object for_each fold_entries details text_eq
one_shown = refl

deposit_status_iff_example :
    Any (λ (y : DepositStatusDetail). y ≡ detail_of di) (detail_of di ∷ [])
    ↔ Stored wait_decide (detail_of di) info_db
deposit_status_iff_example =
    deposit_status_iff wait_decide info_db (detail_of di) (λ e. ground (arith, e)) one_shown

-- Kitty 7 is in the database, kitty 8 is new.
abbrev known_entry : Entry
known_entry = record { id = 7; reservation = status_available; price_btc = 20; price_sky = 4 }

abbrev new_entry : Entry
new_entry = record { id = 8; reservation = status_available; price_btc = 30; price_sky = 6 }

abbrev agent_db : Db
agent_db = record bound_db { users = some (table []) }

abbrev loaded_agent : Agent
loaded_agent = record {
  reservations = (kitty, priced known_entry reservation) ∷ (56 ∷ [], offered new_entry) ∷ [];
  users = [];
  shared = [];
}

abbrev loaded_db : Db
loaded_db = record agent_db {
  reservations_kitty = some (table ((56 ∷ [], offered new_entry) ∷ (kitty, reservation) ∷ []));
}

starts : new_agent (ok (known_entry ∷ new_entry ∷ [])) agent_db ≡ some (loaded_agent, loaded_db)
unfolding new_agent with_users load_kitties load_kitty found_or_stored stored
    get_reservation_from_kitty_id update_reservation update_reservation_with_tx get_users read_only
    get_object get_bucket_object put_object put_bucket_value update find set text_eq decimal digits
    for_each_object for_each fold_entries load_users keys_of
starts = refl

new_agent-Loads_example :
    Loads
      (known_entry ∷ new_entry ∷ [])
      (known_entry ∷ new_entry ∷ [])
      []
      agent_db
      loaded_agent.reservations
      loaded_db
new_agent-Loads_example = new_agent-Loads (known_entry ∷ new_entry ∷ []) agent_db starts

-- The users of the database, and the agent that has taken them.
abbrev other : Text
other = 66 ∷ []

abbrev users_db : Db
users_db = record bound_db {
  users = some (table ((addr, new_user addr) ∷ (other, new_user other) ∷ []));
}

abbrev last : User
last = new_user other

abbrev offer : Reservation
offer = priced known_entry reservation

abbrev sharing : Agent
sharing = record {
  reservations = (kitty, offer) ∷ [];
  users = (addr, last) ∷ (other, last) ∷ [];
  shared = addr ∷ other ∷ [];
}

shares : new_agent (ok (known_entry ∷ [])) users_db ≡ some (sharing, users_db)
unfolding new_agent with_users load_kitties load_kitty found_or_stored stored
    get_reservation_from_kitty_id get_object get_bucket_object decimal digits get_users read_only
    for_each_object for_each fold_entries load_users user_rounds through keys_of find set text_eq
shares = refl

users_read : get_users users_db ≡ ok ((new_user addr ∷ []) ++ (last ∷ []))
unfolding get_users read_only for_each_object for_each fold_entries text_eq
users_read = refl

at_first : find addr sharing.users ≡ some last
unfolding find text_eq
at_first = refl

abbrev limited : Agent
limited = record sharing {
  reservations = (kitty, make_reserved offer) ∷ [];
  users = (addr, reserved_by last offer) ∷ (other, reserved_by last offer) ∷ [];
}

one_reserved : add_reservation addr last kitty offer sharing ≡ (ok tt, limited)
unfolding add_reservation change_user set_each can_reserve find set text_eq listed
one_reserved = refl

new_agent_one_limit_example :
    (find other limited.users ≡ some (reserved_by last offer))
    × (can_reserve (reserved_by last offer) ≡ false)
new_agent_one_limit_example =
    new_agent_one_limit (known_entry ∷ []) users_db (new_user addr ∷ []) last (new_user addr) last
      last kitty offer shares users_read (inl refl) (inr (inl refl)) at_first one_reserved
