-- ===== src/Teller/Service.antt =====
-- Service of src/teller/teller.go: a deposit address for a kitty.
pub mod Binding
pub mod Serving
use teller.Common.{Bool, true, false, List, Text, Result, ok, err, box_already_bound, bind_disabled}
use teller.Bolt.{Bolt}
use teller.Db.{Db}
use teller.Addrs.{AddrManager, manager_new_address, manager_new_address_with_tx}
use teller.Exchange.Types.{BoundAddress}
use teller.Exchange.Facade.{is_bound}
use teller.Exchange.Receive.{receive_bind_address}
use teller.Exchange.Receive.Inside.{StandIns, Call, answered, blocked, receive_bind_address_with_tx}

-- The checks before an address is taken: BindEnabled of the configuration, and IsBound.
unfoldable pub may_bind : Bool → Bool → Result (Unit {0})
may_bind false bound = err bind_disabled
may_bind true true = err box_already_bound
may_bind true false = ok tt

module _ ⦃b : Bolt⦄ where
  unfoldable pub bind_new :
      List Text
      → Text
      → Text
      → Result Text × AddrManager × Db
      → Result BoundAddress × AddrManager × Db
  bind_new coins kitty_id coin_type (err e, am, db) = (err e, am, db)
  bind_new coins kitty_id coin_type (ok addr, am, db) =
      let (r, db') = receive_bind_address coins kitty_id addr coin_type db in (r, am, db')

  -- Service.BindAddress
  unfoldable pub service_bind_address :
      Bool → List Text → AddrManager → Text → Text → Db → Result BoundAddress × AddrManager × Db
  service_bind_address enabled coins am kitty_id coin_type db =
      elim (may_bind enabled (is_bound kitty_id db)) [
        | err e ↦ (err e, am, db)
        | ok u ↦ bind_new coins kitty_id coin_type (manager_new_address am coin_type db)
      ]

  unfoldable pub bind_new_with_tx :
      List Text
      → StandIns
      → Text
      → Text
      → Result Text × AddrManager × Db
      → Call (Result (BoundAddress × Db)) × AddrManager
  bind_new_with_tx coins stand_ins kitty_id coin_type (err e, am, tx) = (answered (err e), am)
  bind_new_with_tx coins stand_ins kitty_id coin_type (ok addr, am, tx) =
      (receive_bind_address_with_tx coins stand_ins kitty_id addr coin_type tx, am)

  -- Service.BindAddressTx: IsBound and the search for a free address read the committed database.
  unfoldable pub service_bind_address_tx :
      Bool
      → List Text
      → StandIns
      → AddrManager
      → Text
      → Text
      → Db
      → Db
      → Call (Result (BoundAddress × Db)) × AddrManager
  service_bind_address_tx enabled coins stand_ins am kitty_id coin_type committed tx =
      elim (may_bind enabled (is_bound kitty_id committed)) [
        | err e ↦ (answered (err e), am)
        | ok u ↦
            bind_new_with_tx coins stand_ins kitty_id coin_type
              (manager_new_address_with_tx am coin_type committed tx)
      ]
