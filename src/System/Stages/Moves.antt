-- ===== src/System/Stages/Moves.antt =====
-- Each transaction of the service takes a deposit on by one stage at most.
use teller.Common.{
  ◌≡◌, Bool-cases, List, [], inl, inr, sym, ap, ◌∙◌, arith, none, some, Option-cases, Text, text_eq,
  text_eq_iff, Result, ok, err, ℕ,
}
use teller.Bolt.{Bolt}
use teller.Dbutil.{view}
use teller.Db.{Db}
use teller.Scanner.Types.{Deposit, id, CommonBlock, accepted}
use teller.Scanner.Store.{scan_block, set_deposit_processed}
use teller.Scanner.Store.Rescan.{scan_block-PushedAll}
use teller.Scanner.Store.Origin.{scan_block-origin}
use teller.Scanner.Store.Processed.{set_deposit_processed-Marked, set_deposit_processed_failed}
use teller.Exchange.Types.{DepositInfo}
use teller.Exchange.Store.{get_or_create_deposit_info}
use teller.Exchange.Store.Recording.{get_or_create-Created}
use teller.Exchange.Receive.Rounds.{get_or_create_unchanged, get_or_create_failed}
use teller.Exchange.Buy.{update_status}
use teller.Exchange.Buy.Payment.{update_status-PartlyPaid}
use teller.System.Database.{IsSound}
use teller.System.Growth.{update_status_failed}
use teller.System.Kept.{HasDeposit, HasInfo}
use teller.System.Stages.{
  stay, stage, stays, scanned_next, recorded_next, finished_next, still_recorded, AllAdvance,
}

module _ ⦃b : Bolt⦄ where
  pub all_stay : (db : Db) → AllAdvance db db
  all_stay db k = stay (stage db k)

  pub scan_advances :
      (block : CommonBlock) (c : Text) (db : Db) {dvs : List Deposit} {db' : Db}
      → IsSound db
      → scan_block block c db ≡ (ok dvs, db')
      → AllAdvance db db'
  scan_advances block c db {db' = db'} inv h k =
      let all = scan_block-PushedAll block c db h in
      let same : view db'.deposit_info k ≡ view db.deposit_info k =
        ap (λ (x : Db). view x.deposit_info k) all.rest in
      rw same (
        scanned_next (view db.deposit_value k) (view db'.deposit_value k) (view db.deposit_info k)
          (inv.seen k) (all.kept k)
          (λ d e. elim (scan_block-origin block c db k d h e) [
            | inl old ↦ inl old
            | inr new ↦ inr new.1
          ]))

  pub record_advances :
      (now : ℕ) (dv : Deposit) (db : Db) (r : Result DepositInfo × Db)
      → IsSound db
      → HasDeposit db (id dv)
      → get_or_create_deposit_info now dv db ≡ r
      → AllAdvance db r.1
  record_advances now dv db (err e, db') inv there h k =
      rw (get_or_create_failed now dv db h) (all_stay db k)
  record_advances now dv db (ok di, db') inv there h k =
      elim (Option-cases (view db.deposit_info (id dv))) [
        | inr (old, known) ↦ rw (get_or_create_unchanged now dv db known h) (all_stay db k)
        | inl absent ↦
            let c = get_or_create-Created now dv db absent h in
            let value : view db'.deposit_value k ≡ view db.deposit_value k =
              ap (λ (x : Db). view x.deposit_value k) c.rest in
            elim (Bool-cases (text_eq (id dv) k)) [
              | inr other ↦ stays value (ground (arith, c.infos k))
              | inl same ↦
                  let key = (text_eq_iff (id dv) k).0 same in
                  let gone : view db.deposit_info k ≡ none =
                    ap (λ j. view db.deposit_info j) (sym key) ∙ absent in
                  let made : view db'.deposit_info k ≡ some di = ground (arith, c.infos k) in
                  rw (value, gone, made)
                    (recorded_next (view db.deposit_value k) di (ground arith)
                      (λ d e st. ground (arith, inv.recorded k d e st)))
            ]
      ]

  pub mark_advances :
      (k : Text) (db : Db) (r : Result (Unit {0}) × Db)
      → HasInfo db k
      → set_deposit_processed k db ≡ r
      → AllAdvance db r.1
  mark_advances k db (err e, db') there h j =
      rw (set_deposit_processed_failed k db h) (all_stay db j)
  mark_advances k db (ok u, db') there h j =
      let m = set_deposit_processed-Marked k db h in
      let info : view db'.deposit_info j ≡ view db.deposit_info j =
        ap (λ (x : Db). view x.deposit_info j) m.rest in
      elim (Bool-cases (text_eq k j)) [
        | inr other ↦ stays (ground (arith, m.views j)) info
        | inl same ↦
            let key = (text_eq_iff k j).0 same in
            let old : view db.deposit_value j ≡ some m.before =
              ap (λ i. view db.deposit_value i) (sym key) ∙ m.there in
            let new : view db'.deposit_value j ≡ some (record m.before { status = accepted }) =
              ground (arith, m.views j) in
            rw (info, old, new) (finished_next m.before (view db.deposit_info j) (ground arith))
      ]

  pub pay_advances :
      (now : ℕ) (di : DepositInfo) (db : Db) (r : Result DepositInfo × Db)
      → di.txid ≡ []
      → update_status now di db ≡ r
      → AllAdvance db r.1
  pay_advances now di db (err e, db') blank h j =
      rw (update_status_failed now di db h) (all_stay db j)
  pay_advances now di db (ok x, db') blank h j =
      let p = update_status-PartlyPaid now di db blank h in
      let value : view db'.deposit_value j ≡ view db.deposit_value j =
        ap (λ (y : Db). view y.deposit_value j) p.rest in
      elim (Bool-cases (text_eq di.deposit_id j)) [
        | inr other ↦ stays value (ground (arith, p.infos j))
        | inl same ↦
            let key = (text_eq_iff di.deposit_id j).0 same in
            let old : view db.deposit_info j ≡ some p.stored =
              ap (λ i. view db.deposit_info i) (sym key) ∙ p.was_stored in
            let new : view db'.deposit_info j ≡ some x = ground (arith, p.infos j) in
            rw (value, old, new) (still_recorded (view db.deposit_value j) p.stored x)
      ]
