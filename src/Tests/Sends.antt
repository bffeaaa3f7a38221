-- ===== src/Tests/Sends.antt =====
-- A deposit that waits to be sent, and one that waits for its confirmation.
use teller.Common.{
  ◌≡◌, refl, some, none, [], ◌∷◌, text_eq, ok, split, parse_int64, parse_magnitude, parse_digits,
  true, false, inl,
}
use teller.Dbutil.{get_bucket_object, put_bucket_value, view}
use teller.Db.{Db}
use teller.Db.Access.{get_object, put_object, update}
use teller.Exchange.Types.{DepositInfo, wait_send, wait_confirm, done}
use teller.Exchange.Deposit.{is_valid_btc_tx, check_wait_send, validate_for_status}
use teller.Exchange.Store.{
  update_deposit_info_tx, update_deposit_info_callback, update_deposit_info,
}
use teller.Exchange.Send.{Round, finished, process_wait_send_deposit, returned, going}
use teller.Exchange.Send.Confirmation.{wait_send_spins, process_until_confirmed}
use teller.Tests.Memory.{memory}
use teller.Tests.Exchanges.{table, deposit_id, di, info_db}

abbrev ready : DepositInfo
ready = record di { status = wait_send }

ready_valid : validate_for_status ready ≡ ok tt
unfolding validate_for_status check_wait_send is_valid_btc_tx parse_int64 parse_magnitude
    parse_digits split text_eq
ready_valid = refl

abbrev idle : Round
idle = record { quit = false; now = 400; response = none; quit_in_wait = false }

wait_send_spins_example :
    process_wait_send_deposit (idle ∷ idle ∷ []) ready info_db ≡ (going ready, info_db)
wait_send_spins_example =
    wait_send_spins (idle ∷ idle ∷ []) ready info_db refl ready_valid
      ((refl, refl, (refl, refl, tt)))

abbrev sent : DepositInfo
sent = record di { status = wait_confirm; txid = 120 ∷ [] }

sent_valid : validate_for_status sent ≡ ok tt
unfolding validate_for_status check_wait_send is_valid_btc_tx parse_int64 parse_magnitude
    parse_digits split text_eq
sent_valid = refl

abbrev sent_db : Db
sent_db = record info_db { deposit_info = some (table ((deposit_id, sent) ∷ [])) }

abbrev done_di : DepositInfo
done_di = record sent { status = done; updated_at = 402 }

abbrev done_db : Db
done_db = record info_db {
  deposit_info = some (table ((deposit_id, done_di) ∷ (deposit_id, sent) ∷ []));
}

finish : update_deposit_info 402 sent.deposit_id finished sent_db ≡ (ok done_di, done_db)
unfolding update_deposit_info update_deposit_info_callback update_deposit_info_tx get_object
    get_bucket_object put_object put_bucket_value update text_eq
finish = refl

abbrev pending : Round
pending = record idle { response = some (record { confirmed = false; error = none }) }

abbrev confirmed : Round
confirmed = record idle { now = 402; response = some (record { confirmed = true; error = none }) }

process_until_confirmed_example :
    (process_wait_send_deposit (pending ∷ confirmed ∷ []) sent sent_db ≡ (returned, done_db))
    × (done_di.status ≡ done)
    × (view done_db.deposit_info sent.deposit_id ≡ some done_di)
process_until_confirmed_example =
    process_until_confirmed (pending ∷ []) confirmed [] sent sent_db refl sent_valid
      ((refl, refl, inl refl), tt) refl refl finish
