-- ===== src/Scanner/Store/Unprocessed.antt =====
-- GetUnprocessedDeposits of src/scanner/store.go.
use teller.Common.{◌≡◌, ◌↔◌, arith, true, some, List, [], Text, ok, Any}
use teller.Bolt.{Bolt}
use teller.Dbutil.{view, for_each}
use teller.Dbutil.Collecting.{for_each-collect}
use teller.Db.{Db}
use teller.Db.Access.{for_each_object, read_only}
use teller.Scanner.Types.{Deposit, DepositStatus, not_processed}
use teller.Scanner.Store.{is_not_processed, keep_unprocessed, get_unprocessed_deposits}

is_not_processed_iff : (s : DepositStatus) → (is_not_processed s ≡ true) ↔ (s ≡ not_processed)
is_not_processed_iff s = (λ h. ground arith, λ h. ground arith)

module _ ⦃b : Bolt⦄ where
  -- When GetUnprocessedDeposits succeeds, a deposit is in its answer exactly when it is stored
  -- under some key and has the status DepositNotProcessed.
  pub get_unprocessed_deposits_iff :
      (db : Db) (d : Deposit) {dvs : List Deposit}
      → get_unprocessed_deposits db ≡ ok dvs
      → Any (λ (x : Deposit). x ≡ d) dvs
        ↔ ((k : Text) × (view db.deposit_value k ≡ some d) × (d.status ≡ not_processed))
  unfolding get_unprocessed_deposits read_only for_each_object
  get_unprocessed_deposits_iff db d {dvs} h =
      let visited : for_each db.deposit_value keep_unprocessed [] ≡ ok dvs = ground arith in
      let all =
        for_each-collect (λ (x : Deposit). is_not_processed x.status) db.deposit_value d visited in
      let test = is_not_processed_iff d.status in
      (
        λ x. let (k, there, pass) = all.0 x in (k, there, test.0 pass),
        λ x. let (k, there, st) = x in all.1 (k, there, test.1 st),
      )
