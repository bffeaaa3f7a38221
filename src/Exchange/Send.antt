-- ===== src/Exchange/Send.antt =====
-- src/exchange/send.go: a deposit that is paid in full, up to the confirmation of the transaction.
pub mod Creating
pub mod Confirmation
use teller.Common.{
  ℕ, Bool, true, false, Option, none, some, List, [], ◌∷◌, Text, Result, ok, err, Error,
  deposit_status_invalid, no_response, not_confirmed, rpc_error, wrapped, if◌then◌else◌,
}
use teller.Bolt.{Bolt}
use teller.Db.{Db}
use teller.Scanner.Types.{Deposit, unset}
use teller.Exchange.Types.{
  Status, wait_deposit, wait_send, wait_partial, wait_confirm, done, unknown, wait_decide,
  DepositInfo, is_status,
}
use teller.Exchange.Deposit.{validate_for_status}
use teller.Exchange.Store.{update_deposit_info}

-- sender.ConfirmResponse without its request.
pub record ConfirmResponse : Type 0 where
  pub confirmed : Bool
  pub error : Option Error

-- DepositInfo{}
abbrev pub zero_deposit_info : DepositInfo
zero_deposit_info = record {
  seq = 0;
  updated_at = 0;
  status = wait_deposit;
  coin_type = [];
  kitty_id = [];
  deposit_address = [];
  owner_address = [];
  deposit_id = [];
  txid = [];
  deposit_value = 0;
  error = [];
  deposit = record {
    coin_type = [];
    address = [];
    value = 0;
    height = 0;
    tx = [];
    n = 0;
    status = unset;
  };
}

abbrev pub finished : DepositInfo → DepositInfo
finished di = record di { status = done }

-- A Go function that returns a DepositInfo and an error, on the database.
abbrev pub Outcome : Type 0
Outcome = DepositInfo × Option Error

module _ ⦃b : Bolt⦄ where
  -- What UpdateDepositInfo returns with its error is the empty DepositInfo.
  abbrev stored_or_zero : Result DepositInfo × Db → Outcome × Db
  stored_or_zero (ok di, db) = ((di, none), db)
  stored_or_zero (err e, db) = ((zero_deposit_info, some e), db)

  on_response : ℕ → Option ConfirmResponse → DepositInfo → Db → Outcome × Db
  on_response now none di db = ((di, some no_response), db)
  on_response now (some rsp) di db = elim rsp.error [
    | some e ↦ ((di, some e), db)
    | none ↦
        if rsp.confirmed
        then stored_or_zero (update_deposit_info now di.deposit_id finished db)
        else ((di, some not_confirmed), db)
  ]

  on_status : Status → ℕ → Option ConfirmResponse → DepositInfo → Db → Outcome × Db
  unfolding on_response
  on_status wait_send now rsp di db = ((di, none), db)
  on_status wait_confirm now rsp di db = on_response now rsp di db
  on_status done now rsp di db = ((di, none), db)
  on_status _ now rsp di db = ((di, some deposit_status_invalid), db)

  -- `rsp` is what sender.IsTxConfirmed(di.Txid) answers, if it is asked; `none` is nil.
  unfoldable pub handle_deposit_info_state :
      ℕ → Option ConfirmResponse → DepositInfo → Db → Outcome × Db
  unfolding on_status
  handle_deposit_info_state now rsp di db = elim (validate_for_status di) [
    | err e ↦ ((di, some e), db)
    | ok u ↦ on_status di.status now rsp di db
  ]

  -- One round of the loop of processWaitSendDeposit: whether s.quit is closed at its start, the time,
  -- the sender's answer, and whether s.quit is closed during the wait.
  pub record Round : Type 0 where
    pub quit : Bool
    pub now : ℕ
    pub response : Option ConfirmResponse
    pub quit_in_wait : Bool

  -- How the loop stands: it has returned nil or an error, or goes on with this DepositInfo.
  pub data Progress : Type 0 where
    returned : Progress
    failed : Error → Progress
    going : DepositInfo → Progress

  abbrev stop_if_done : DepositInfo → Progress
  stop_if_done di = if is_status di.status done then returned else going di

  abbrev after_wait : Bool → DepositInfo → Progress
  after_wait quit di = if quit then returned else stop_if_done di

  -- The switches on the error: nil, an RPCError or ErrNotConfirmed, and any other.
  abbrev judge : Bool → Outcome → Progress
  judge quit (di, none) = stop_if_done di
  judge quit (di, some rpc_error) = after_wait quit di
  judge quit (di, some not_confirmed) = after_wait quit di
  judge quit (di, some e) = failed e

  unfoldable pub send_round : Round → DepositInfo → Db → Progress × Db
  unfolding handle_deposit_info_state
  send_round r di db =
      if r.quit
      then (returned, db)
      else (let (out, db') = handle_deposit_info_state r.now r.response di db in
          (judge r.quit_in_wait out, db'))

  -- processWaitSendDeposit over the rounds that take place.
  unfoldable pub process_wait_send_deposit : List Round → DepositInfo → Db → Progress × Db
  process_wait_send_deposit [] di db = (going di, db)
  process_wait_send_deposit (r ∷ rounds) di db =
      let (p, db') = send_round r di db in
      elim p [
        | returned ↦ (returned, db')
        | failed e ↦ (failed e, db')
        | going di' ↦ process_wait_send_deposit rounds di' db'
      ]
