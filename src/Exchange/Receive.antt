-- ===== src/Exchange/Receive.antt =====
-- src/exchange/receiver.go: deposits from the scanners, and the binding of addresses. The scanners
-- of the multiplexer (src/scanner/multiplexer.go) are the list of their coin types.
pub mod Binding
pub mod Inside
pub mod Rounds
use teller.Common.{
  ℕ, Option, none, some, List, [], ◌∷◌, Text, Result, ok, err, Error, unknown_coin_type,
  if◌then◌else◌,
}
use teller.Bolt.{Bolt}
use teller.Db.{Db}
use teller.Scanner.Types.{Deposit}
use teller.Scanner.Store.{listed, add_scan_address}
use teller.Exchange.Types.{BoundAddress, DepositInfo}
use teller.Exchange.Store.{bind_address, get_or_create_deposit_info}

-- Multiplexer.ValidateCoinType
unfoldable pub validate_coin_type : List Text → Text → Result (Unit {0})
validate_coin_type coins coin_type = if listed coin_type coins then ok tt else err unknown_coin_type

module _ ⦃b : Bolt⦄ where
  -- Multiplexer.AddScanAddress; each scanner hands the address to its store.
  unfoldable pub multiplexer_add_scan_address :
      List Text → Text → Text → Db → Result (Unit {0}) × Db
  multiplexer_add_scan_address coins deposit_addr coin_type db =
      if listed coin_type coins
      then add_scan_address deposit_addr coin_type db
      else (err unknown_coin_type, db)

  returning : BoundAddress → Result (Unit {0}) × Db → Result BoundAddress × Db
  returning bound (err e, db) = (err e, db)
  returning bound (ok u, db) = (ok bound, db)

  then_watch : List Text → Text → Text → Result BoundAddress × Db → Result BoundAddress × Db
  unfolding returning
  then_watch coins deposit_addr coin_type (err e, db) = (err e, db)
  then_watch coins deposit_addr coin_type (ok bound, db) =
      returning bound (multiplexer_add_scan_address coins deposit_addr coin_type db)

  -- Receive.BindAddress: two transactions, one after the other.
  unfoldable pub receive_bind_address :
      List Text → Text → Text → Text → Db → Result BoundAddress × Db
  unfolding then_watch
  receive_bind_address coins kitty_id deposit_addr coin_type db =
      elim (validate_coin_type coins coin_type) [
        | err e ↦ (err e, db)
        | ok u ↦
            then_watch coins deposit_addr coin_type
              (bind_address kitty_id deposit_addr coin_type db)
      ]

  unfoldable pub save_incoming_deposit : ℕ → Deposit → Db → Result DepositInfo × Db
  save_incoming_deposit now dv = get_or_create_deposit_info now dv

  -- One round of runReadMultiplexer: what goes to the note's ErrC and to r.deposits.
  unfoldable pub receive_round : ℕ → Deposit → Db → Option Error × Option DepositInfo × Db
  unfolding save_incoming_deposit
  receive_round now dv db =
      let (r, db') = save_incoming_deposit now dv db in
      elim r [ err e ↦ (some e, none, db') | ok d ↦ (none, some d, db') ]

  -- The rounds of runReadMultiplexer, each with its time.
  unfoldable pub run_read_multiplexer :
      List (ℕ × Deposit) → Db → List (Option Error × Option DepositInfo) × Db
  run_read_multiplexer [] db = ([], db)
  run_read_multiplexer ((now, dv) ∷ notes) db =
      let (answer, out, db1) = receive_round now dv db in
      let (answers, db2) = run_read_multiplexer notes db1 in ((answer, out) ∷ answers, db2)
