-- ===== src/Exchange/Deposit.antt =====
-- src/exchange/deposit.go: the statuses' names and the checks of a DepositInfo.
pub mod Laws
use teller.Common.{
  ℕ, ◌==◌, Bool, true, false, not, ◌&&◌, List, [], ◌∷◌, Text, codes, text_eq, is_empty, split,
  is_some, parse_int64, Result, ok, err, Error, seq_missing, kitty_id_missing,
  deposit_address_missing, deposit_id_missing, deposit_id_invalid, deposit_value_zero, txid_missing,
  status_invalid, ◌>>=◌, ◌>>◌, if◌then◌else◌,
}
use teller.Scanner.Types.{coin_btc}
use teller.Exchange.Types.{
  Status, wait_deposit, wait_send, wait_partial, wait_confirm, done, unknown, wait_decide,
  DepositInfo,
}

-- Status.String
unfoldable pub status_string : Status → Text
status_string wait_deposit = codes "waiting_deposit"
status_string wait_partial = codes "waiting_partial"
status_string wait_send = codes "waiting_send"
status_string wait_confirm = codes "waiting_confirm"
status_string done = codes "done"
status_string unknown = codes "unknown"
status_string wait_decide = codes "waiting_decide"

unfoldable pub new_status_from_str : Text → Status
unfolding status_string
new_status_from_str st =
    if text_eq st (status_string wait_deposit)
    then wait_deposit
    else if text_eq st (status_string wait_partial)
    then wait_partial
    else if text_eq st (status_string wait_send)
    then wait_send
    else if text_eq st (status_string wait_confirm)
    then wait_confirm
    else if text_eq st (status_string done)
    then done
    else if text_eq st (status_string wait_decide)
    then wait_decide
    else unknown

-- Two parts, neither empty, the second an int64.
abbrev valid_parts : List Text → Bool
valid_parts (p ∷ q ∷ []) = not (is_empty p) && (not (is_empty q) && is_some (parse_int64 q))
valid_parts _ = false

unfoldable pub is_valid_btc_tx : Text → Bool
is_valid_btc_tx t = if is_empty t then false else valid_parts (split b':' t)

abbrev fail_if : Bool → Error → Result (Unit {0})
fail_if true e = err e
fail_if false e = ok tt

-- The closure checkWaitSend.
unfoldable pub check_wait_send : DepositInfo → Result (Unit {0})
check_wait_send di = do
  fail_if (di.seq == 0) seq_missing
  fail_if (is_empty di.kitty_id) kitty_id_missing
  fail_if (is_empty di.deposit_address) deposit_address_missing
  fail_if (is_empty di.deposit_id) deposit_id_missing
  fail_if (text_eq di.coin_type coin_btc && not (is_valid_btc_tx di.deposit_id)) deposit_id_invalid
  fail_if (di.deposit_value == 0) deposit_value_zero

-- ErrEmptySendAmount.Error()
abbrev pub empty_send_amount_text : Text
empty_send_amount_text = codes "Sending no kitty"

validate_by : Status → DepositInfo → Result (Unit {0})
validate_by done di = do
  fail_if (not (text_eq di.error empty_send_amount_text) && is_empty di.txid) txid_missing
  check_wait_send di
validate_by wait_confirm di = do fail_if (is_empty di.txid) txid_missing; check_wait_send di
validate_by wait_send di = check_wait_send di
validate_by wait_partial di = check_wait_send di
validate_by wait_decide di = check_wait_send di
validate_by wait_deposit di = err status_invalid
validate_by unknown di = err status_invalid

unfoldable pub validate_for_status : DepositInfo → Result (Unit {0})
unfolding validate_by
validate_for_status di = validate_by di.status di
