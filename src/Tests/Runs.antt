-- ===== src/Tests/Runs.antt =====
-- A run of the service: a block pays to a bound address, the deposit goes through the scanner and the
-- exchange, and its part of the price is added up.
use teller.Common.{
  ◌≡◌, refl, none, some, [], ◌∷◌, Text, text_eq, ok, err, Error, false, digits, decimal, split,
  parse_int64, parse_magnitude, parse_digits, add_i64,
}
use teller.Dbutil.{
  get_bucket_object, put_bucket_value, bucket_has_key, next_sequence, view, for_each, fold_entries,
}
use teller.Db.{Db}
use teller.Db.Access.{
  get_object, find_object, put_object, has_key, next_seq, update, read_only, for_each_object,
}
use teller.Db.Buckets.{get_bind_address_bkt, get_scan_meta_bkt}
use teller.Scanner.Types.{Deposit, id, coin_btc, accepted, CommonBlock}
use teller.Scanner.Store.{
  listed, scan_addresses, scan_vouts, scan_txs, scan_specified_block, get_scan_addresses_tx,
  push_deposit_tx, push_new, push_all, scan_block_tx, scan_block, set_deposit_processed,
  set_deposit_processed_tx,
}
use teller.Scanner.Base.{replied, process_deposit}
use teller.Exchange.Types.{DepositInfo}
use teller.Exchange.Deposit.{is_valid_btc_tx, check_wait_send, validate_for_status}
use teller.Exchange.Store.{
  get_bind_address_tx, get_kitty_price_tx, create_deposit_track_tx, add_deposit_info_tx, append_tx,
  create_deposit_info_tx, get_or_create_tx, get_or_create_deposit_info, update_deposit_info_tx,
  update_deposit_info_callback, get_deposit_track_tx, update_deposit_track_tx,
}
use teller.Exchange.Buy.{pay, update_status}
use teller.Exchange.Buy.Repeated.{update_status_twice}
use teller.Exchange.Receive.{save_incoming_deposit, receive_round}
use teller.Exchange.Store.Queries.{get_deposit_info_array}
use teller.Exchange.Facade.{is_bound, get_deposit_statuses}
use teller.System.{
  System, new_pipe, idle, asking, answered, set_pipe, Step, scan, take_next, receive, mark, reload,
  restart, has_wait_decide, IsUnused, Reach, start, later,
}
use teller.System.Database.{IsOpen}
use teller.System.Stages.{AllAdvance}
use teller.System.Stages.Refined.{Step-Advance}
use teller.System.Safety.{accepted_recorded, nothing_sent, nothing_bound}
use teller.Tests.Memory.{memory}
use teller.Tests.Exchanges.{
  table, addr, txid, deposit_id, dv, watched_db, di, info_db, track, partial_di, partial_db, kitty,
}

abbrev pub db0 : Db
db0 = record watched_db { deposit_value = some (table []); kitty_deposit_seqs = some (table []) }

abbrev s0 : System
s0 = record { db = db0; pipes = λ c. new_pipe; received = []; paid = [] }

unused : IsUnused db0
unfolding view
unused = record { no_deposit = λ k. refl; no_info = λ k. refl; no_seqs = λ k. refl }

abbrev pub block : CommonBlock
block = record {
  height = 7;
  hash = [];
  next_hash = [];
  raw_tx =
      record { txid = txid; vout = record { value = 5; n = 0; addresses = addr ∷ [] } ∷ [] } ∷ [];
}

abbrev pub db1 : Db
db1 = record db0 { deposit_value = some (table ((deposit_id, dv) ∷ [])) }

pub scanned : scan_block block coin_btc db0 ≡ (ok (dv ∷ []), db1)
unfolding scan_block scan_block_tx get_scan_addresses_tx get_scan_meta_bkt find_object
    get_bucket_object text_eq scan_specified_block scan_txs scan_vouts scan_addresses listed
    push_all push_new push_deposit_tx has_key bucket_has_key id decimal digits put_object
    put_bucket_value update
scanned = refl

abbrev s1 : System
s1 = record s0 {
  db = db1;
  pipes = set_pipe coin_btc (record { queue = dv ∷ []; hand = idle }) s0.pipes;
}

reach1 : Reach s1
reach1 = later (start db0 unused) (scan coin_btc block none scanned)

abbrev s2 : System
s2 = record s1 { pipes = set_pipe coin_btc (record { queue = []; hand = asking dv }) s1.pipes }

reach2 : Reach s2
unfolding text_eq
reach2 = later reach1 (take_next coin_btc dv [] refl)

abbrev db3 : Db
db3 = record info_db {
  scan_meta_btc = db1.scan_meta_btc;
  deposit_value = db1.deposit_value;
  kitty_deposit_seqs = db1.kitty_deposit_seqs;
}

recorded : receive_round 100 dv db1 ≡ (none, some di, db3)
unfolding receive_round save_incoming_deposit get_or_create_deposit_info get_or_create_tx
    create_deposit_info_tx get_bind_address_tx get_bind_address_bkt create_deposit_track_tx
    get_kitty_price_tx add_deposit_info_tx append_tx validate_for_status check_wait_send
    is_valid_btc_tx parse_int64 parse_magnitude parse_digits split id decimal digits next_seq
    next_sequence has_key bucket_has_key get_object find_object get_bucket_object put_object
    put_bucket_value update text_eq
recorded = refl

abbrev s3 : System
s3 = record s2 {
  db = db3;
  pipes = set_pipe coin_btc (record { queue = []; hand = answered dv }) s2.pipes;
  received = di ∷ [];
}

reach3 : Reach s3
unfolding text_eq
reach3 = later reach2 (receive coin_btc 100 dv refl recorded)

abbrev marked : Deposit
marked = record dv { status = accepted }

abbrev db4 : Db
db4 = record db3 { deposit_value = some (table ((deposit_id, marked) ∷ (deposit_id, dv) ∷ [])) }

marking : process_deposit dv (replied none) db3 ≡ (none, db4)
unfolding process_deposit set_deposit_processed set_deposit_processed_tx id decimal digits
    get_object get_bucket_object put_object put_bucket_value update text_eq
marking = refl

abbrev s4 : System
s4 = record s3 { db = db4; pipes = set_pipe coin_btc (record { queue = []; hand = idle }) s3.pipes }

step4 : Step s3 s4
unfolding text_eq
step4 = mark coin_btc dv refl marking

reach4 : Reach s4
reach4 = later reach3 step4

Step-Advance_example : AllAdvance db3 db4
Step-Advance_example = Step-Advance reach3 step4

there : view db4.deposit_value deposit_id ≡ some marked
unfolding view text_eq
there = refl

accepted_recorded_example :
    (di' : DepositInfo) × (view db4.deposit_info deposit_id ≡ some di')
    × (di'.deposit_id ≡ id marked)
accepted_recorded_example = accepted_recorded deposit_id marked reach4 there refl

-- The process starts again, and the receiver queues the DepositInfo that it had not passed on.
undecided : get_deposit_info_array has_wait_decide db4 ≡ ok (di ∷ [])
unfolding get_deposit_info_array read_only for_each_object for_each fold_entries
undecided = refl

abbrev s6 : System
s6 = record { db = db4; pipes = λ c. new_pipe; received = di ∷ []; paid = [] }

reach6 : Reach s6
reach6 = later (later reach4 restart) (reload none undecided)

nothing_sent_example :
    (s6.paid ≡ [])
    × ((k : Text) (di' : DepositInfo)
        → view db4.deposit_info k ≡ some di'
        → IsOpen di'.status × (di'.txid ≡ []))
nothing_sent_example = nothing_sent reach6

nothing_bound_example :
    (is_bound kitty db4 ≡ false) × ((e : Error) × (get_deposit_statuses 500 kitty db4 ≡ err e))
nothing_bound_example = nothing_bound 500 kitty reach4

abbrev paid_again : DepositInfo
paid_again = record partial_di { updated_at = 301 }

abbrev double_db : Db
double_db = record partial_db {
  deposit_info = some (record {
    rows = (deposit_id, paid_again) ∷ (deposit_id, partial_di) ∷ (deposit_id, di) ∷ [];
    counter = 1;
  });
  deposit_track = some (
      table (
        (addr, record track { amount_deposited = 10 })
        ∷ (addr, record track { amount_deposited = 5 })
        ∷ (addr, track)
        ∷ []));
}

first : update_status 300 di info_db ≡ (ok partial_di, partial_db)
unfolding update_status update_deposit_info_callback update_deposit_info_tx pay get_deposit_track_tx
    update_deposit_track_tx get_object get_bucket_object put_object put_bucket_value update text_eq
first = refl

second : update_status 301 di partial_db ≡ (ok paid_again, double_db)
unfolding update_status update_deposit_info_callback update_deposit_info_tx pay get_deposit_track_tx
    update_deposit_track_tx get_object get_bucket_object put_object put_bucket_value update text_eq
second = refl

empty_track : view info_db.deposit_track di.deposit_address ≡ some track
unfolding view text_eq
empty_track = refl

double_track :
    view double_db.deposit_track di.deposit_address ≡ some (record track { amount_deposited = 10 })
unfolding view text_eq
double_track = refl

update_status_twice_example : 10 ≡ add_i64 (add_i64 0 5) 5
update_status_twice_example =
    update_status_twice 300 301 di info_db refl first second track
      (record track { amount_deposited = 10 }) empty_track double_track
