-- ===== src/Tests/Agents.antt =====
-- A user who reserves two kitties, and two users from the database.
use teller.Common.{
  All, AllDiffer, ◌≡◌, refl, some, none, List, [], ◌∷◌, Text, text_eq, ok, find, set,
}
use teller.Dbutil.{put_bucket_value}
use teller.Db.{Db, empty_db}
use teller.Db.Access.{put_object}
use teller.Scanner.Types.{coin_btc, coin_sky}
use teller.Agent.Types.{Reservation, User, status_available}
use teller.Agent.Store.{add_user_with_tx, update_user_with_tx, update_reservation_with_tx}
use teller.Agent.Managers.{Agent, get_reservation_by_kitty_id, set_reservation, get_user, add_user}
use teller.Agent.Booking.{
  set_coin, check_available, reserved_for, with_reservation, make_reservation, new_user,
}
use teller.Agent.Booking.Calls.{BookingCall, IsHeld, book_all, book_all-AllDiffer}
use teller.Agent.Booking.Laws.{Booked, make_reservation-Booked}
use teller.Teller.Reserving.{Answers, reserve_box}
use teller.Teller.Reserving.Limits.{Fails, reserve_box_stuck}
use teller.Tests.Memory.{memory}

abbrev kitty_of : Text → Reservation
kitty_of k = record {
  deposit_address = [];
  owner_address = [];
  kitty_id = k;
  status = status_available;
  price_btc = 12;
  price_sky = 3;
  coin_type = [];
  expire = 0;
}

abbrev one : Text
one = 49 ∷ []

abbrev two : Text
two = 50 ∷ []

abbrev addr : Text
addr = 65 ∷ []

abbrev addr' : Text
addr' = 66 ∷ []

abbrev buyer : Text
buyer = 67 ∷ []

abbrev agent : Agent
agent = record {
  reservations = (one, kitty_of one) ∷ (two, kitty_of two) ∷ [];
  users = [];
  shared = [];
}

abbrev db : Db
db = record empty_db {
  reservations_kitty = some (record { rows = []; counter = 0 });
  users = some (record { rows = []; counter = 0 });
}

abbrev kitty_1 : Reservation
kitty_1 = record (reserved_for addr buyer (kitty_of one)) { coin_type = coin_btc }

-- Paid in SKY: the coin type stays blank.
abbrev kitty_2 : Reservation
kitty_2 = reserved_for addr' buyer (kitty_of two)

abbrev agent1 : Agent
agent1 = record {
  reservations = (one, kitty_1) ∷ (two, kitty_of two) ∷ [];
  users = (buyer, new_user buyer) ∷ [];
  shared = [];
}

abbrev user_rows : List (Text × User)
user_rows = (buyer, with_reservation (new_user buyer) kitty_1) ∷ (buyer, new_user buyer) ∷ []

abbrev db1 : Db
db1 = record empty_db {
  reservations_kitty = some (record { rows = (one, kitty_1) ∷ []; counter = 0 });
  users = some (record { rows = user_rows; counter = 0 });
}

abbrev agent2 : Agent
agent2 = record agent1 { reservations = (one, kitty_1) ∷ (two, kitty_2) ∷ [] }

abbrev db2 : Db
db2 = record empty_db {
  reservations_kitty = some (record { rows = (two, kitty_2) ∷ (one, kitty_1) ∷ []; counter = 0 });
  users = some (record {
    rows = (buyer, with_reservation (new_user buyer) kitty_2) ∷ user_rows;
    counter = 0;
  });
}

first_booking : make_reservation none addr buyer one coin_btc agent db ≡ (ok tt, agent1, db1)
unfolding make_reservation get_reservation_by_kitty_id find set check_available set_coin
    set_reservation get_user add_user_with_tx add_user update_reservation_with_tx
    update_user_with_tx put_object put_bucket_value text_eq
first_booking = refl

second_booking : make_reservation none addr' buyer two coin_sky agent1 db1 ≡ (ok tt, agent2, db2)
unfolding make_reservation get_reservation_by_kitty_id find set check_available set_coin
    set_reservation get_user add_user_with_tx add_user update_reservation_with_tx
    update_user_with_tx put_object put_bucket_value text_eq
second_booking = refl

make_reservation-Booked_example : Booked addr buyer one coin_btc agent db agent1 db1
make_reservation-Booked_example =
    make_reservation-Booked none addr buyer one coin_btc agent db first_booking

abbrev booking : Text → Text → BookingCall
booking user_addr kitty_id = record {
  verified = none;
  deposit_addr = addr;
  user_addr = user_addr;
  kitty_id = kitty_id;
  coin_type = coin_btc;
}

abbrev calls : List (BookingCall × Db)
calls = (booking buyer one, db) ∷ (booking addr one, db1) ∷ (booking addr two, db1) ∷ []

books_two : book_all calls agent ≡ one ∷ two ∷ []
unfolding book_all make_reservation get_reservation_by_kitty_id find set check_available set_coin
    set_reservation get_user add_user_with_tx add_user update_reservation_with_tx
    update_user_with_tx put_object put_bucket_value text_eq
books_two = refl

book_all-AllDiffer_example :
    AllDiffer (book_all calls agent) × All (λ k. ¬ IsHeld agent k) (book_all calls agent)
book_all-AllDiffer_example = book_all-AllDiffer calls agent

abbrev all_well : Answers
all_well = record { verified = none; kitty_id = none; kitty_api = none; satisfied = none }

abbrev full_user : User
full_user = with_reservation (new_user buyer) kitty_1

-- The agent after the first reservation and its AddReservation.
abbrev full_agent : Agent
full_agent = record agent1 { users = (buyer, full_user) ∷ [] }

is_full : find buyer full_agent.users ≡ some full_user
unfolding find text_eq
is_full = refl

abbrev full_agent2 : Agent
full_agent2 = record full_agent { reservations = (one, kitty_1) ∷ (two, kitty_2) ∷ [] }

abbrev full_db2 : Db
full_db2 = record db2 {
  users =
      some (record { rows = (buyer, with_reservation full_user kitty_2) ∷ user_rows; counter = 0 });
}

third_booking :
    make_reservation none addr' buyer two coin_sky full_agent db1 ≡ (ok tt, full_agent2, full_db2)
unfolding make_reservation get_reservation_by_kitty_id find set check_available set_coin
    set_reservation get_user add_user_with_tx add_user update_reservation_with_tx
    update_user_with_tx put_object put_bucket_value text_eq
third_booking = refl

reserve_box_stuck_example :
    Fails (reserve_box all_well addr' buyer two coin_sky full_agent db1 db1) full_agent2 db1
    × Fails (reserve_box all_well addr addr two coin_btc full_agent2 db1 db1) full_agent2 db1
reserve_box_stuck_example =
    reserve_box_stuck all_well all_well addr' buyer two coin_sky addr addr coin_btc full_agent db1
      db1 db1 db1 is_full refl third_booking
