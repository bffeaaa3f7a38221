-- ===== src/Exchange/Store/Creation.antt =====
-- What a transaction of src/exchange/store.go that records a deposit has read and written.
use teller.Common.{
  not-is_some, ℕ, ◌≡◌, arith, not, none, some, [], ◌∷◌, ◌++◌, Text, text_eq, ok, if◌then◌else◌,
}
use teller.Common.Txs.{bind_then, guard_then, lift_then}
use teller.Bolt.{Bolt}
use teller.Dbutil.{view}
use teller.Db.{Db}
use teller.Db.Buckets.{deposit_info_bkt, txs_bkt}
use teller.Db.Laws.{put_object-ok, find_then, has_then, seq_then, put_then}
use teller.Exchange.Types.{DepositInfo}
use teller.Exchange.Deposit.{validate_for_status}
use teller.Exchange.Store.{append_tx, add_deposit_info_tx, or_nil}

module _ ⦃b : Bolt⦄ where
  -- The list of one address has grown by one ID, and nothing else has changed.
  pub record Appended (addr deposit_id : Text) (db db' : Db) : Type 0 where
    pub txs :
        (j : Text)
        → view db'.deposit_txs j ≡ (
            if text_eq addr j
            then some (or_nil (view db.deposit_txs addr) ++ (deposit_id ∷ []))
            else view db.deposit_txs j)
    pub rest : db' ≡ record db { deposit_txs = db'.deposit_txs }

  pub append_tx-Appended :
      (addr deposit_id : Text) (db : Db) {u : Unit {0}} {db' : Db}
      → append_tx addr deposit_id db ≡ ok (u, db')
      → Appended addr deposit_id db db'
  unfolding append_tx
  append_tx-Appended addr deposit_id db h = find_then txs_bkt addr _ db h λ o seen h1.
      let (t, wrote, views, ne) =
        put_object-ok txs_bkt addr (or_nil o ++ (deposit_id ∷ [])) db h1 in
      record { txs = λ j. ground (arith, views j); rest = ground arith }

  -- A DepositInfo has been recorded under its ID, which was new, and listed for its address.
  pub record Added (now : ℕ) (di : DepositInfo) (db : Db) (r : DepositInfo) (db' : Db)
      : Type 0 where
    pub new_key : view db.deposit_info di.deposit_id ≡ none
    pub result : r ≡ record di { seq = r.seq; updated_at = now }
    pub valid : validate_for_status r ≡ ok tt
    pub infos :
        (j : Text)
        → view db'.deposit_info j
          ≡ (if text_eq di.deposit_id j then some r else view db.deposit_info j)
    pub txs :
        (j : Text)
        → view db'.deposit_txs j ≡ (
            if text_eq di.deposit_address j
            then some (or_nil (view db.deposit_txs di.deposit_address) ++ (di.deposit_id ∷ []))
            else view db.deposit_txs j)
    pub rest : db' ≡ record db { deposit_info = db'.deposit_info; deposit_txs = db'.deposit_txs }

  pub add_deposit_info_tx-Added :
      (now : ℕ) (di : DepositInfo) (db : Db) {r : DepositInfo} {db' : Db}
      → add_deposit_info_tx now di db ≡ ok (r, db')
      → Added now di db r db'
  unfolding add_deposit_info_tx
  add_deposit_info_tx-Added now di db h =
      has_then deposit_info_bkt di.deposit_id _ db h λ has seen h1.
        guard_then (not has) _ _ db h1 λ absent h2.
          seq_then deposit_info_bkt _ db h2 λ seq t same pos h3.
            lift_then (validate_for_status (record di { seq = seq; updated_at = now })) _ _ h3
              λ u valid h4. put_then deposit_info_bkt di.deposit_id _ _ _ h4 λ t' views ne h5.
                bind_then (append_tx di.deposit_address di.deposit_id) _ _ h5 λ u' db6 e h6.
                  let app = append_tx-Appended di.deposit_address di.deposit_id _ e in
                  record {
                    new_key = not-is_some (view db.deposit_info di.deposit_id) seen absent;
                    result = ground arith;
                    valid = ground arith;
                    infos = λ j. ground (arith, views j, same j, app.rest);
                    txs = λ j. ground (arith, app.txs j);
                    rest = ground (arith, app.rest);
                  }
