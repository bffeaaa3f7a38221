-- ===== src/Tests/Exchanges.antt =====
-- A kitty whose deposit address is bound, its deposit, the payment and the confirmation.
use teller.Common.{
  ℕ, ◌≡◌, refl, some, none, List, [], ◌∷◌, Text, text_eq, ok, err, Error, split, digits, decimal,
  parse_int64, parse_magnitude, parse_digits,
}
use teller.Dbutil.{get_bucket_object, put_bucket_value, bucket_has_key, next_sequence, view}
use teller.Db.{Db, empty_db}
use teller.Db.Access.{get_object, find_object, put_object, has_key, next_seq, update}
use teller.Db.Buckets.{get_bind_address_bkt, get_scan_meta_bkt}
use teller.Scanner.Types.{Deposit, id, coin_btc, not_processed}
use teller.Agent.Types.{Reservation}
use teller.Exchange.Types.{
  BoundAddress, DepositInfo, DepositTrack, wait_decide, wait_partial, wait_confirm,
}
use teller.Exchange.Deposit.{
  status_string, new_status_from_str, is_valid_btc_tx, check_wait_send, validate_for_status,
}
use teller.Exchange.Deposit.Laws.{new_status_from_str-status_string}
use teller.Exchange.Store.{
  get_bind_address_tx, bind_in, bind_address, get_kitty_price_tx, create_deposit_track_tx,
  add_deposit_info_tx, append_tx, create_deposit_info_tx, get_or_create_tx,
  get_or_create_deposit_info, update_deposit_info_tx, update_deposit_info_callback,
  get_deposit_track_tx, update_deposit_track_tx,
}
use teller.Exchange.Store.Bindings.{bound_to, Binds, bind_address-Binds}
use teller.Exchange.Store.Recording.{Created, get_or_create-Created, get_or_create_twice}
use teller.Exchange.Buy.{pay, update_status}
use teller.Exchange.Buy.Payment.{PartlyPaid, update_status-PartlyPaid, full_payment_refused}
use teller.Exchange.Receive.Rounds.{Saved, run_read_multiplexer-Saved}
use teller.Exchange.Receive.{
  run_read_multiplexer, validate_coin_type, multiplexer_add_scan_address, receive_bind_address,
}
use teller.Scanner.Store.{
  deposit_addresses_key, listed, get_scan_addresses_tx, add_scan_address_tx, add_scan_address,
}
use teller.Tests.Memory.{Table, memory}

abbrev pub table : {V : Type 0} → List (Text × V) → Table V
table rows = record { rows = rows; counter = 0 }

abbrev pub addr : Text
addr = 65 ∷ []

abbrev pub kitty : Text
kitty = 55 ∷ []

abbrev pub txid : Text
txid = 116 ∷ []

abbrev pub deposit_id : Text
deposit_id = 116 ∷ 58 ∷ 48 ∷ []

abbrev pub bound : BoundAddress
bound = record { kitty_id = kitty; address = addr; coin_type = coin_btc }

abbrev pub reservation : Reservation
reservation = record {
  deposit_address = addr;
  owner_address = [];
  kitty_id = kitty;
  status = [];
  price_btc = 12;
  price_sky = 3;
  coin_type = coin_btc;
  expire = 0;
}

abbrev pub dv : Deposit
dv = record {
  coin_type = coin_btc;
  address = addr;
  value = 5;
  height = 7;
  tx = txid;
  n = 0;
  status = not_processed;
}

abbrev pub free_db : Db
free_db = record empty_db {
  deposit_info = some (table []);
  deposit_txs = some (table []);
  bind_address_btc = some (table []);
  deposit_track = some (table []);
  reservations_kitty = some (table ((kitty, reservation) ∷ []));
}

abbrev pub bound_db : Db
bound_db = record free_db { bind_address_btc = some (table ((addr, bound) ∷ [])) }

bind : bind_address kitty addr coin_btc free_db ≡ (ok bound, bound_db)
unfolding bind_address bind_in get_bind_address_tx get_bind_address_bkt find_object
    get_bucket_object put_object put_bucket_value update text_eq
bind = refl

bind_address-Binds_example : (bound ≡ bound) × Binds bound free_db bound_db
bind_address-Binds_example = bind_address-Binds kitty addr coin_btc free_db bind

is_bound : bound_to coin_btc addr bound_db ≡ some bound
unfolding text_eq view
is_bound = refl

abbrev pub di : DepositInfo
di = record {
  seq = 1;
  updated_at = 100;
  status = wait_decide;
  coin_type = coin_btc;
  kitty_id = kitty;
  deposit_address = addr;
  owner_address = [];
  deposit_id = deposit_id;
  txid = [];
  deposit_value = 5;
  error = [];
  deposit = dv;
}

abbrev pub track : DepositTrack
track = record { kitty_id = kitty; amount_deposited = 0; amount_required = 12 }

abbrev pub info_db : Db
info_db = record bound_db {
  deposit_info = some (record { rows = (deposit_id, di) ∷ []; counter = 1 });
  deposit_txs = some (table ((addr, deposit_id ∷ []) ∷ []));
  deposit_track = some (table ((addr, track) ∷ []));
}

record_deposit : get_or_create_deposit_info 100 dv bound_db ≡ (ok di, info_db)
unfolding get_or_create_deposit_info get_or_create_tx create_deposit_info_tx get_bind_address_tx
    get_bind_address_bkt create_deposit_track_tx get_kitty_price_tx add_deposit_info_tx append_tx
    validate_for_status check_wait_send is_valid_btc_tx parse_int64 parse_magnitude parse_digits
    split id decimal digits next_seq next_sequence has_key bucket_has_key get_object find_object
    get_bucket_object put_object put_bucket_value update text_eq
record_deposit = refl

not_there : view bound_db.deposit_info (id dv) ≡ none
unfolding view
not_there = refl

get_or_create-Created_example : Created 100 dv bound_db di info_db
get_or_create-Created_example = get_or_create-Created 100 dv bound_db not_there record_deposit

get_or_create_twice_example : get_or_create_deposit_info 200 dv info_db ≡ (ok di, info_db)
get_or_create_twice_example = get_or_create_twice 100 200 dv bound_db record_deposit refl

abbrev pub partial_di : DepositInfo
partial_di = record di { status = wait_partial; updated_at = 300 }

abbrev pub partial_db : Db
partial_db = record info_db {
  deposit_info =
      some (record { rows = (deposit_id, partial_di) ∷ (deposit_id, di) ∷ []; counter = 1 });
  deposit_track = some (table ((addr, record track { amount_deposited = 5 }) ∷ (addr, track) ∷ []));
}

pay_part : update_status 300 di info_db ≡ (ok partial_di, partial_db)
unfolding update_status update_deposit_info_callback update_deposit_info_tx pay get_deposit_track_tx
    update_deposit_track_tx get_object get_bucket_object put_object put_bucket_value update text_eq
pay_part = refl

update_status-PartlyPaid_example : PartlyPaid 300 di info_db partial_di partial_db
update_status-PartlyPaid_example = update_status-PartlyPaid 300 di info_db refl pay_part

abbrev large : DepositInfo
large = record di { deposit_value = 12 }

track_there : view info_db.deposit_track large.deposit_address ≡ some track
unfolding view text_eq
track_there = refl

full_payment_refused_example : (e : Error) × (update_status 300 large info_db ≡ (err e, info_db))
full_payment_refused_example = full_payment_refused 300 large track info_db refl track_there refl

new_status_from_str-status_string_example :
    new_status_from_str (status_string wait_confirm) ≡ wait_confirm
new_status_from_str-status_string_example = new_status_from_str-status_string wait_confirm

abbrev twin : Deposit
twin = record dv { value = 9; height = 8 }

abbrev pub unwatched_db : Db
unwatched_db = record free_db { scan_meta_btc = some (table []) }

abbrev pub watched_db : Db
watched_db = record bound_db {
  scan_meta_btc = some (table ((deposit_addresses_key, addr ∷ []) ∷ []));
}

bind_and_watch :
    receive_bind_address (coin_btc ∷ []) kitty addr coin_btc unwatched_db ≡ (ok bound, watched_db)
unfolding receive_bind_address validate_coin_type multiplexer_add_scan_address listed bind_address
    bind_in get_bind_address_tx get_bind_address_bkt add_scan_address add_scan_address_tx
    get_scan_addresses_tx get_scan_meta_bkt find_object get_bucket_object put_object
    put_bucket_value update text_eq
bind_and_watch = refl

-- The second deposit is to an address that is not bound.
abbrev notes : List (ℕ × Deposit)
notes = (100, dv) ∷ (101, record dv { address = 66 ∷ []; n = 1 }) ∷ []

run_read_multiplexer-Saved_example :
    Saved notes (run_read_multiplexer notes bound_db).0 (run_read_multiplexer notes bound_db).1
run_read_multiplexer-Saved_example = run_read_multiplexer-Saved notes bound_db
