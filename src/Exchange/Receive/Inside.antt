-- ===== src/Exchange/Receive/Inside.antt =====
-- BindAddressWithTx of src/exchange/receiver.go: the binding of an address inside a writable
-- transaction of the caller.
use teller.Common.{
  Option, none, some, List, Text, Result, ok, err, unknown_coin_type, if◌then◌else◌,
}
use teller.Bolt.{Bolt}
use teller.Db.{Db}
use teller.Scanner.Store.{listed}
use teller.Scanner.Dummy.{DummyScanner, dummy_add_scan_address}
use teller.Exchange.Types.{BoundAddress}
use teller.Exchange.Store.{bind_address_with_tx}
use teller.Exchange.Receive.{validate_coin_type}

-- A call that comes back with an answer, or waits for a lock that is not let go. bolt has one writable
-- transaction at a time: DB.Update waits for the end of the one that is open.
pub data Call (A : Type 0) : Type 0 where
  answered : A → Call A
  blocked : Call A

-- The stand-in of src/scanner/dummy.go that the configuration has under a coin type, `none` for the
-- scanner of a node.
abbrev pub StandIns : Type 0
StandIns = Text → Option DummyScanner

-- Scanner.AddScanAddress while a writable transaction is open: the store of a node's scanner calls
-- DB.Update, a stand-in keeps the address in memory. Its new state is not followed.
unfoldable pub add_scan_address_at : Option DummyScanner → Text → Text → Call (Result (Unit {0}))
add_scan_address_at none deposit_addr coin_type = blocked
add_scan_address_at (some d) deposit_addr coin_type =
    answered (dummy_add_scan_address deposit_addr coin_type d).0

-- Multiplexer.AddScanAddress
unfoldable pub add_scan_address_inside :
    List Text → StandIns → Text → Text → Call (Result (Unit {0}))
unfolding add_scan_address_at
add_scan_address_inside coins stand_ins deposit_addr coin_type =
    if listed coin_type coins
    then add_scan_address_at (stand_ins coin_type) deposit_addr coin_type
    else answered (err unknown_coin_type)

module _ ⦃b : Bolt⦄ where
  unfoldable pub returning_inside :
      BoundAddress → Db → Call (Result (Unit {0})) → Call (Result (BoundAddress × Db))
  returning_inside bound tx blocked = blocked
  returning_inside bound tx (answered (err e)) = answered (err e)
  returning_inside bound tx (answered (ok u)) = answered (ok (bound, tx))

  unfoldable pub watch_inside :
      List Text
      → StandIns
      → Text
      → Text
      → Result (BoundAddress × Db)
      → Call (Result (BoundAddress × Db))
  watch_inside coins stand_ins deposit_addr coin_type (err e) = answered (err e)
  watch_inside coins stand_ins deposit_addr coin_type (ok (bound, tx)) =
      returning_inside bound tx (add_scan_address_inside coins stand_ins deposit_addr coin_type)

  -- `tx` is the state inside the transaction.
  unfoldable pub receive_bind_address_with_tx :
      List Text → StandIns → Text → Text → Text → Db → Call (Result (BoundAddress × Db))
  receive_bind_address_with_tx coins stand_ins kitty_id deposit_addr coin_type tx =
      elim (validate_coin_type coins coin_type) [
        | err e ↦ answered (err e)
        | ok u ↦
            watch_inside coins stand_ins deposit_addr coin_type
              (bind_address_with_tx kitty_id deposit_addr coin_type tx)
      ]
