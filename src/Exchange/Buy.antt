-- ===== src/Exchange/Buy.antt =====
-- src/exchange/buy.go: the processor between the receiver and the sender.
pub mod Payment
pub mod Repeated
use teller.Common.{
  ℕ, Bool, true, false, Option, none, some, Text, Result, ok, err, leb_i64, add_i64, if◌then◌else◌,
  List, [], ◌∷◌,
}
use teller.Common.Txs.{Tx, pure, ◌>>=◌, ◌>>◌}
use teller.Bolt.{Bolt}
use teller.Db.{Db}
use teller.Db.Access.{put_object}
use teller.Db.Buckets.{deposit_info_bkt}
use teller.Exchange.Types.{DepositInfo, DepositTrack, wait_partial, wait_send, is_status}
use teller.Exchange.Store.{
  get_deposit_track_tx, update_deposit_track_tx, update_deposit_info_callback,
}

module _ ⦃b : Bolt⦄ where
  -- dt.AmountDeposited += di.DepositValue
  abbrev pub paid : DepositInfo → DepositTrack → DepositTrack
  paid di dt = record dt { amount_deposited = add_i64 dt.amount_deposited di.deposit_value }

  -- The captured `di` gets the status StatusWaitSend and is put under its Txid.
  release_if_paid : DepositInfo → DepositTrack → Tx Db (Unit {0})
  release_if_paid di dt =
      if leb_i64 dt.amount_required dt.amount_deposited
      then put_object deposit_info_bkt di.txid (record di { status = wait_send })
      else pure tt

  -- The callback of updateStatus; it does not use the DepositInfo that it is called with.
  unfoldable pub pay : DepositInfo → Tx Db (Unit {0})
  unfolding release_if_paid
  pay di = do
    dt ← get_deposit_track_tx di.deposit_address
    update_deposit_track_tx di.deposit_address (paid di dt)
    release_if_paid di (paid di dt)

  abbrev pub partial : DepositInfo → DepositInfo
  partial di = record di { status = wait_partial }

  unfoldable pub update_status : ℕ → DepositInfo → Db → Result DepositInfo × Db
  unfolding pay
  update_status now di = update_deposit_info_callback now di.deposit_id partial (λ _. pay di)

  -- What one round of runUpdateStatus sends on to p.deposits.
  abbrev forwarded : Result DepositInfo → Option DepositInfo
  forwarded (err e) = none
  forwarded (ok d) = if is_status d.status wait_send then some d else none

  unfoldable pub buy_round : ℕ → DepositInfo → Db → Option DepositInfo × Db
  unfolding update_status
  buy_round now d db = let (r, db') = update_status now d db in (forwarded r, db')

  abbrev cons_some : Option DepositInfo → List DepositInfo → List DepositInfo
  cons_some none outs = outs
  cons_some (some o) outs = o ∷ outs

  -- runUpdateStatus over the deposits that arrive, each with the time of its round.
  unfoldable pub run_update_status : List (ℕ × DepositInfo) → Db → List DepositInfo × Db
  run_update_status [] db = ([], db)
  run_update_status ((now, d) ∷ arrivals) db =
      let (out, db1) = buy_round now d db in
      let (outs, db2) = run_update_status arrivals db1 in (cons_some out outs, db2)
