-- ===== src/Exchange/Send/Confirmation.antt =====
-- What the loop of src/exchange/send.go comes to.
use teller.Common.{
  ℕ, ◌≡◌, refl, arith, Bool, true, false, none, some, [], ◌∷◌, ◌++◌, List, Text, text_eq,
  text_eq_refl, ok, rpc_error, inl, inr, ◌⊎◌,
}
use teller.Common.Txs.{pure, guard_then}
use teller.Bolt.{Bolt}
use teller.Dbutil.{view}
use teller.Db.{Db}
use teller.Db.Buckets.{deposit_info_bkt}
use teller.Db.Laws.{get_then, put_then, update-ok}
use teller.Exchange.Types.{DepositInfo, wait_send, wait_confirm, done}
use teller.Exchange.Deposit.{validate_for_status}
use teller.Exchange.Store.{
  update_deposit_info_tx, update_deposit_info_callback, update_deposit_info,
}
use teller.Exchange.Send.{
  Round, returned, going, finished, handle_deposit_info_state, send_round,
  process_wait_send_deposit,
}

module _ ⦃b : Bolt⦄ where
  -- s.quit is not closed in any of the rounds.
  abbrev pub NoQuit : List Round → Type 0
  NoQuit [] = Unit {0}
  NoQuit (r ∷ rounds) = (r.quit ≡ false) × (r.quit_in_wait ≡ false) × NoQuit rounds

  -- For a valid deposit with the status StatusWaitSend, over any number of rounds in which
  -- nobody asks to quit and whatever the sender answers, processWaitSendDeposit neither returns
  -- nor changes the deposit or the database.
  pub wait_send_spins :
      (rounds : List Round) (di : DepositInfo) (db : Db)
      → di.status ≡ wait_send
      → validate_for_status di ≡ ok tt
      → NoQuit rounds
      → process_wait_send_deposit rounds di db ≡ (going di, db)
  unfolding process_wait_send_deposit send_round handle_deposit_info_state
  wait_send_spins [] di db st valid q = refl
  wait_send_spins (r ∷ rounds) di db st valid (live, wait, q) =
      ground (arith, wait_send_spins rounds di db st valid q)

  -- An answer after which the loop waits and asks again.
  abbrev pub IsPending : Round → Type 0
  IsPending r =
      (r.quit ≡ false)
      × (r.quit_in_wait ≡ false)
      × ((r.response ≡ some (record { confirmed = false; error = none }))
          ⊎ ((c : Bool) × (r.response ≡ some (record { confirmed = c; error = some rpc_error }))))

  abbrev pub AllPending : List Round → Type 0
  AllPending [] = Unit {0}
  AllPending (r ∷ rounds) = IsPending r × AllPending rounds

  send_round_pending :
      (r : Round) (di : DepositInfo) (db : Db)
      → di.status ≡ wait_confirm
      → validate_for_status di ≡ ok tt
      → IsPending r
      → send_round r di db ≡ (going di, db)
  unfolding send_round handle_deposit_info_state
  send_round_pending r di db st valid (live, wait, inl e) = ground arith
  send_round_pending r di db st valid (live, wait, inr (c, e)) = ground arith

  finished_stored :
      (now : ℕ) (txid : Text) (db : Db) {stored : DepositInfo} {db' : Db}
      → update_deposit_info now txid finished db ≡ (ok stored, db')
      → (stored.status ≡ done) × (view db'.deposit_info txid ≡ some stored)
  unfolding update_deposit_info update_deposit_info_callback update_deposit_info_tx
  finished_stored now txid db {stored} {db'} h =
      get_then deposit_info_bkt txid _ db
        (update-ok (update_deposit_info_tx now txid finished (λ _. pure tt)) db h)
        λ old seen h1. guard_then (text_eq old.deposit_id txid) _ _ db h1 λ key h2.
          put_then deposit_info_bkt txid _ _ db h2
            λ t views ne h3. (ground arith, ground (arith, views txid, text_eq_refl txid))

  send_round_confirmed :
      (r : Round) (di : DepositInfo) (db : Db) {stored : DepositInfo} {db' : Db}
      → di.status ≡ wait_confirm
      → validate_for_status di ≡ ok tt
      → r.quit ≡ false
      → r.response ≡ some (record { confirmed = true; error = none })
      → update_deposit_info r.now di.deposit_id finished db ≡ (ok stored, db')
      → stored.status ≡ done
      → send_round r di db ≡ (returned, db')
  unfolding send_round handle_deposit_info_state
  send_round_confirmed r di db st valid live confirms wrote fin = ground arith

  -- For a valid deposit with the status StatusWaitConfirm, after any number of rounds in which
  -- the transaction is not confirmed or the request fails with an RPC error and nobody asks to
  -- quit, a round in which it is confirmed and the update of the database succeeds ends the loop
  -- of processWaitSendDeposit; the database is that after the update, and has the deposit with
  -- the status StatusDone.
  pub process_until_confirmed :
      (rounds : List Round) (r : Round) (later : List Round) (di : DepositInfo) (db : Db)
      {stored : DepositInfo} {db' : Db}
      → di.status ≡ wait_confirm
      → validate_for_status di ≡ ok tt
      → AllPending rounds
      → r.quit ≡ false
      → r.response ≡ some (record { confirmed = true; error = none })
      → update_deposit_info r.now di.deposit_id finished db ≡ (ok stored, db')
      → process_wait_send_deposit (rounds ++ (r ∷ later)) di db ≡ (returned, db')
        × (stored.status ≡ done)
        × (view db'.deposit_info di.deposit_id ≡ some stored)
  unfolding process_wait_send_deposit
  process_until_confirmed [] r later di db st valid p live confirms wrote =
      let (fin, kept) = finished_stored r.now di.deposit_id db wrote in
      (ground (arith, send_round_confirmed r di db st valid live confirms wrote fin), fin, kept)
  process_until_confirmed (q ∷ rounds) r later di db st valid p live confirms wrote = ground (
    arith,
    send_round_pending q di db st valid p.0,
    process_until_confirmed rounds r later di db st valid p.1 live confirms wrote,
  )
