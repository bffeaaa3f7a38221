-- ===== src/Scanner/Store/Processed.antt =====
-- SetDepositProcessed of src/scanner/store.go, where it succeeds.
use teller.Common.{◌≡◌, arith, some, Text, text_eq, text_eq_iff, ok, err, Error, if◌then◌else◌}
use teller.Common.Txs.{guard_then}
use teller.Bolt.{Bolt}
use teller.Dbutil.{view}
use teller.Db.{Db}
use teller.Db.Buckets.{deposit_bkt}
use teller.Db.Laws.{get_then, put_object-ok, update-ok, update-err}
use teller.Scanner.Types.{Deposit, id, accepted}
use teller.Scanner.Store.{set_deposit_processed_tx, set_deposit_processed}

module _ ⦃b : Bolt⦄ where
  -- The deposit under the key has the status DepositAccepted; nothing else has changed.
  pub record Marked (k : Text) (db db' : Db) : Type 0 where
    pub before : Deposit
    pub there : view db.deposit_value k ≡ some before
    pub keyed : id before ≡ k
    pub views :
        (j : Text)
        → view db'.deposit_value j ≡ (
            if text_eq k j
            then some (record before { status = accepted })
            else view db.deposit_value j)
    pub rest : db' ≡ record db { deposit_value = db'.deposit_value }

  set_deposit_processed_tx-Marked :
      (k : Text) (db : Db) {u : Unit {0}} {db' : Db}
      → set_deposit_processed_tx k db ≡ ok (u, db')
      → Marked k db db'
  unfolding set_deposit_processed_tx
  set_deposit_processed_tx-Marked k db h = get_then deposit_bkt k _ db h λ dv seen h1.
      guard_then (text_eq (id dv) k) _ _ db h1 λ same h2.
        let (t, wrote, views, ne) =
          put_object-ok deposit_bkt (id dv) (record dv { status = accepted }) db h2 in
        let key : id dv ≡ k = (text_eq_iff (id dv) k).0 same in
        record {
          before = dv;
          there = seen;
          keyed = key;
          views = λ j. ground (arith, views j, key);
          rest = ground arith;
        }

  pub set_deposit_processed-Marked :
      (k : Text) (db : Db) {u : Unit {0}} {db' : Db}
      → set_deposit_processed k db ≡ (ok u, db')
      → Marked k db db'
  unfolding set_deposit_processed
  set_deposit_processed-Marked k db h =
      set_deposit_processed_tx-Marked k db (update-ok (set_deposit_processed_tx k) db h)

  pub set_deposit_processed_failed :
      (k : Text) (db : Db) {e : Error} {db' : Db}
      → set_deposit_processed k db ≡ (err e, db')
      → db' ≡ db
  unfolding set_deposit_processed
  set_deposit_processed_failed k db h = update-err (set_deposit_processed_tx k) db h
