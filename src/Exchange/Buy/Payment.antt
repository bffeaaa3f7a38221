-- ===== src/Exchange/Buy/Payment.antt =====
-- What src/exchange/buy.go does with a payment: less than the price is recorded, and the payment
-- that reaches the price is refused by the database.
use teller.Common.{
  ℕ, ◌≡◌, refl, arith, true, false, none, some, [], ◌∷◌, List, Text, text_eq, ok, err, Error, ◌⊎◌,
  inl, inr, Bool-cases, leb_i64, if◌then◌else◌, Result-cases,
}
use teller.Common.Txs.{Tx, bind_then, guard_then}
use teller.Bolt.{Bolt}
use teller.Dbutil.{view}
use teller.Db.{Db}
use teller.Db.Access.{put_object, update}
use teller.Db.Buckets.{deposit_info_bkt, deposit_track_bkt}
use teller.Db.Laws.{get_then, put_then, put_object-ok, update-ok, update_refused}
use teller.Exchange.Types.{DepositInfo, DepositTrack, wait_partial, wait_send}
use teller.Exchange.Store.{
  get_deposit_track_tx, update_deposit_track_tx, update_deposit_info_tx,
  update_deposit_info_callback,
}
use teller.Exchange.Buy.{
  paid, release_if_paid, pay, partial, update_status, buy_round, run_update_status,
}

module _ ⦃b : Bolt⦄ where
  -- A payment below the price has been added to the track of its address.
  pub record Paid (di : DepositInfo) (db db' : Db) : Type 0 where
    pub before : DepositTrack
    pub tracked : view db.deposit_track di.deposit_address ≡ some before
    pub below : leb_i64 before.amount_required (paid di before).amount_deposited ≡ false
    pub tracks :
        (j : Text)
        → view db'.deposit_track j ≡ (
            if text_eq di.deposit_address j then some (paid di before) else view db.deposit_track j)
    pub rest : db' ≡ record db { deposit_track = db'.deposit_track }

  release_if_paid-below :
      (di : DepositInfo) (dt : DepositTrack) (db : Db) {u : Unit {0}} {db' : Db}
      → di.txid ≡ []
      → release_if_paid di dt db ≡ ok (u, db')
      → (leb_i64 dt.amount_required dt.amount_deposited ≡ false) × (db' ≡ db)
  unfolding release_if_paid
  release_if_paid-below di dt db {u} {db'} blank h =
      elim (Bool-cases (leb_i64 dt.amount_required dt.amount_deposited)) [
        | inl full ↦
            let went : put_object deposit_info_bkt di.txid (record di { status = wait_send }) db
                ≡ ok (u, db') =
              rw full at h in
            let (t, wrote, views, ne) = put_object-ok deposit_info_bkt di.txid _ db went in
            absurd (ne blank)
        | inr below ↦ (below, ground arith)
      ]

  pay-Paid :
      (di : DepositInfo) (db : Db) {u : Unit {0}} {db' : Db}
      → di.txid ≡ []
      → pay di db ≡ ok (u, db')
      → Paid di db db'
  unfolding pay get_deposit_track_tx update_deposit_track_tx
  pay-Paid di db blank h = get_then deposit_track_bkt di.deposit_address _ db h λ dt seen h1.
      put_then deposit_track_bkt di.deposit_address (paid di dt) _ db h1 λ t views ne h2.
        let (below, same) = release_if_paid-below di (paid di dt) _ blank h2 in
        record {
          before = dt;
          tracked = seen;
          below = below;
          tracks = λ j. ground (arith, views j);
          rest = ground arith;
        }

  -- A deposit has been marked as a partial payment, and added to the track of its address.
  pub record PartlyPaid (now : ℕ) (di : DepositInfo) (db : Db) (r : DepositInfo) (db' : Db)
      : Type 0 where
    pub stored : DepositInfo
    pub was_stored : view db.deposit_info di.deposit_id ≡ some stored
    pub result : r ≡ record stored { status = wait_partial; updated_at = now }
    pub infos :
        (j : Text)
        → view db'.deposit_info j
          ≡ (if text_eq di.deposit_id j then some r else view db.deposit_info j)
    pub before : DepositTrack
    pub tracked : view db.deposit_track di.deposit_address ≡ some before
    pub below : leb_i64 before.amount_required (paid di before).amount_deposited ≡ false
    pub tracks :
        (j : Text)
        → view db'.deposit_track j ≡ (
            if text_eq di.deposit_address j then some (paid di before) else view db.deposit_track j)
    pub rest :
        db' ≡ record db { deposit_info = db'.deposit_info; deposit_track = db'.deposit_track }

  update_tx-PartlyPaid :
      (now : ℕ) (di : DepositInfo) (db : Db) {r : DepositInfo} {db' : Db}
      → di.txid ≡ []
      → update_deposit_info_tx now di.deposit_id partial (λ _. pay di) db ≡ ok (r, db')
      → PartlyPaid now di db r db'
  unfolding update_deposit_info_tx
  update_tx-PartlyPaid now di db blank h =
      get_then deposit_info_bkt di.deposit_id _ db h λ old seen h1.
        guard_then (text_eq old.deposit_id di.deposit_id) _ _ db h1 λ key h2.
          put_then deposit_info_bkt di.deposit_id _ _ db h2 λ t views ne h3.
            bind_then (pay di) _ _ h3 λ u db2 e h4.
              let p = pay-Paid di _ blank e in
              record {
                stored = old;
                was_stored = seen;
                result = ground arith;
                infos = λ j. ground (arith, views j, p.rest);
                before = p.before;
                tracked = p.tracked;
                below = p.below;
                tracks = λ j. ground (arith, p.tracks j);
                rest = ground (arith, p.rest);
              }

  -- When updateStatus succeeds on a deposit with no Txid, the stored DepositInfo has the status
  -- StatusWaitPartial and the time of the call; the value of the deposit has been added to the
  -- track of its address, which stays below the price; every other DepositInfo and track, and
  -- every other bucket, is as it was.
  pub update_status-PartlyPaid :
      (now : ℕ) (di : DepositInfo) (db : Db) {r : DepositInfo} {db' : Db}
      → di.txid ≡ []
      → update_status now di db ≡ (ok r, db')
      → PartlyPaid now di db r db'
  unfolding update_status update_deposit_info_callback
  update_status-PartlyPaid now di db blank h =
      update_tx-PartlyPaid now di db blank
        (update-ok (update_deposit_info_tx now di.deposit_id partial (λ _. pay di)) db h)

  update_tx-status :
      (now : ℕ) (txid : Text) (callback : DepositInfo → Tx Db (Unit {0})) (db : Db)
      {r : DepositInfo} {db' : Db}
      → update_deposit_info_tx now txid partial callback db ≡ ok (r, db')
      → r.status ≡ wait_partial
  unfolding update_deposit_info_tx
  update_tx-status now txid callback db h = get_then deposit_info_bkt txid _ db h λ old seen h1.
      guard_then (text_eq old.deposit_id txid) _ _ db h1 λ key h2.
        put_then deposit_info_bkt txid _ _ db h2
          λ t views ne h3. bind_then (callback _) _ _ h3 λ u db2 e h4. ground arith

  update_status-status :
      (now : ℕ) (di : DepositInfo) (db : Db) {r : DepositInfo} {db' : Db}
      → update_status now di db ≡ (ok r, db')
      → r.status ≡ wait_partial
  unfolding update_status update_deposit_info_callback
  update_status-status now di db h =
      update_tx-status now di.deposit_id (λ _. pay di) db
        (update-ok (update_deposit_info_tx now di.deposit_id partial (λ _. pay di)) db h)

  update_status_cases :
      (now : ℕ) (di : DepositInfo) (db : Db)
      → ((e : Error) × (update_status now di db ≡ (err e, db)))
        ⊎ ((r : DepositInfo) × (db' : Db) × (update_status now di db ≡ (ok r, db')))
  unfolding update_status update_deposit_info_callback
  update_status_cases now di db =
      let m = update_deposit_info_tx now di.deposit_id partial (λ _. pay di) in
      elim (Result-cases (update m db).0) [
        | inl (e, failed) ↦ inl (e, update_refused m db failed)
        | inr (r, went) ↦ inr (r, (update m db).1, ground arith)
      ]

  -- For a deposit with no Txid that brings the track of its address to the price, updateStatus
  -- returns an error and the database is unchanged: the payment is not recorded.
  pub full_payment_refused :
      (now : ℕ) (di : DepositInfo) (dt : DepositTrack) (db : Db)
      → di.txid ≡ []
      → view db.deposit_track di.deposit_address ≡ some dt
      → leb_i64 dt.amount_required (paid di dt).amount_deposited ≡ true
      → (e : Error) × (update_status now di db ≡ (err e, db))
  full_payment_refused now di dt db blank track full = elim (update_status_cases now di db) [
    | inl refused ↦ refused
    | inr (r, db', went) ↦
        let p = update_status-PartlyPaid now di db blank went in
        absurd (ground (arith, p.tracked, p.below))
  ]

  pub buy_round-none : (now : ℕ) (di : DepositInfo) (db : Db) → (buy_round now di db).0 ≡ none
  unfolding buy_round
  buy_round-none now di db = elim (update_status_cases now di db) [
    | inl (e, refused) ↦ rw refused
    | inr (r, db', went) ↦ rw went (rw (update_status-status now di db went))
  ]

  -- Whatever deposits arrive, in any state of the database, runUpdateStatus forwards none of
  -- them to the sender.
  pub run_update_status-nil :
      (arrivals : List (ℕ × DepositInfo)) (db : Db) → (run_update_status arrivals db).0 ≡ []
  unfolding run_update_status
  run_update_status-nil [] db = refl
  run_update_status-nil ((now, di) ∷ arrivals) db =
      ground
        (arith, buy_round-none now di db, run_update_status-nil arrivals (buy_round now di db).1)
