-- ===== src/Scanner/Base/Marking.antt =====
-- The database after processDeposit of src/scanner/base_scanner.go.
use teller.Common.{◌≡◌, arith, none, Result-cases, inl, inr}
use teller.Bolt.{Bolt}
use teller.Db.{Db}
use teller.Scanner.Types.{Deposit, id}
use teller.Scanner.Store.{set_deposit_processed}
use teller.Scanner.Base.{replied, after_mark, process_deposit}

module _ ⦃b : Bolt⦄ where
  pub process_deposit_db :
      (dv : Deposit) (db : Db)
      → (process_deposit dv (replied none) db).1 ≡ (set_deposit_processed (id dv) db).1
  unfolding process_deposit after_mark
  process_deposit_db dv db = elim (Result-cases (set_deposit_processed (id dv) db).0) [
    | inl (e, bad) ↦ ground arith
    | inr (u, good) ↦ ground arith
  ]
