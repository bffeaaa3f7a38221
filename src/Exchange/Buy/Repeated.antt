-- ===== src/Exchange/Buy/Repeated.antt =====
-- A deposit that comes to updateStatus (src/exchange/buy.go) a second time.
use teller.Common.{ℕ, ◌≡◌, arith, some, [], text_eq_refl, ok, add_i64}
use teller.Bolt.{Bolt}
use teller.Dbutil.{view}
use teller.Db.{Db}
use teller.Exchange.Types.{DepositInfo, DepositTrack}
use teller.Exchange.Buy.{update_status}
use teller.Exchange.Buy.Payment.{update_status-PartlyPaid}

module _ ⦃b : Bolt⦄ where
  -- When updateStatus succeeds twice on the same deposit with no Txid, one call right after the
  -- other, the amount in the track of its address has grown by the value of the deposit twice,
  -- in int64.
  pub update_status_twice :
      (now later : ℕ) (di : DepositInfo) (db : Db) {r r' : DepositInfo} {db1 db2 : Db}
      → di.txid ≡ []
      → update_status now di db ≡ (ok r, db1)
      → update_status later di db1 ≡ (ok r', db2)
      → (before after : DepositTrack) → view db.deposit_track di.deposit_address ≡ some before
      → view db2.deposit_track di.deposit_address ≡ some after
      → after.amount_deposited
        ≡ add_i64 (add_i64 before.amount_deposited di.deposit_value) di.deposit_value
  update_status_twice now later di db {r} {r'} {db1} {db2} blank first second before after was is' =
      let one = update_status-PartlyPaid now di db blank first in
      let two = update_status-PartlyPaid later di db1 blank second in
      let here = text_eq_refl di.deposit_address in
      ground (
        arith,
        one.tracked,
        one.tracks di.deposit_address,
        two.tracked,
        two.tracks di.deposit_address,
      )
