-- ===== src/Teller/Service/Binding.antt =====
-- What the service answers to a request for a deposit address.
use teller.Common.{
  ◌≡◌, ◌⊎◌, inl, inr, refl, arith, Bool, Bool-cases, none, List, Text, Result, Result-cases, ok,
  err, Error, unknown_coin_type,
}
use teller.Bolt.{Bolt}
use teller.Db.{Db}
use teller.Scanner.Store.{listed}
use teller.Addrs.{AddrManager, manager_new_address_with_tx}
use teller.Exchange.Types.{BoundAddress}
use teller.Exchange.Store.{bind_address_with_tx}
use teller.Exchange.Facade.{is_bound}
use teller.Exchange.Receive.{validate_coin_type}
use teller.Exchange.Receive.Inside.{
  Call, answered, blocked, StandIns, add_scan_address_at, add_scan_address_inside, returning_inside,
  watch_inside, receive_bind_address_with_tx,
}
use teller.Teller.Service.{may_bind, bind_new_with_tx, service_bind_address_tx}

module _ ⦃b : Bolt⦄ where
  abbrev pub NoAddress : Call (Result (BoundAddress × Db)) → Type 0
  NoAddress c = (c ≡ blocked) ⊎ ((e : Error) × (c ≡ answered (err e)))

  watch-NoAddress :
      (coins : List Text) (stand_ins : StandIns) (addr coin_type : Text)
      (r : Result (BoundAddress × Db))
      → stand_ins coin_type ≡ none
      → NoAddress (watch_inside coins stand_ins addr coin_type r)
  unfolding watch_inside returning_inside add_scan_address_inside add_scan_address_at
  watch-NoAddress coins stand_ins addr coin_type (err e) node = inr (e, refl)
  watch-NoAddress coins stand_ins addr coin_type (ok (bound, tx)) node =
      elim (Bool-cases (listed coin_type coins)) [
        | inl there ↦ inl (ground arith)
        | inr missing ↦ inr (unknown_coin_type, ground arith)
      ]

  receive-NoAddress :
      (coins : List Text) (stand_ins : StandIns) (kitty_id addr coin_type : Text) (tx : Db)
      → stand_ins coin_type ≡ none
      → NoAddress (receive_bind_address_with_tx coins stand_ins kitty_id addr coin_type tx)
  unfolding receive_bind_address_with_tx
  receive-NoAddress coins stand_ins kitty_id addr coin_type tx node =
      elim (Result-cases (validate_coin_type coins coin_type)) [
        | inl (e, bad) ↦ inr (e, ground arith)
        | inr (u, good) ↦
            rw (receive_bind_address_with_tx, good)
              (watch-NoAddress coins stand_ins addr coin_type
                (bind_address_with_tx kitty_id addr coin_type tx) node)
      ]

  bind_new-NoAddress :
      (coins : List Text) (stand_ins : StandIns) (kitty_id coin_type : Text)
      (r : Result Text × AddrManager × Db)
      → stand_ins coin_type ≡ none
      → NoAddress (bind_new_with_tx coins stand_ins kitty_id coin_type r).0
  unfolding bind_new_with_tx
  bind_new-NoAddress coins stand_ins kitty_id coin_type (err e, am, tx) node = inr (e, refl)
  bind_new-NoAddress coins stand_ins kitty_id coin_type (ok addr, am, tx) node =
      receive-NoAddress coins stand_ins kitty_id addr coin_type tx node

  -- BindAddressTx of the service, which the reservation handler calls inside its writable
  -- transaction, never returns an address where a node's scanner has the coin type, whatever the
  -- pools, the kitty and the databases: it returns an error or waits for the end of the transaction
  -- that is open.
  pub service_bind_address_tx-NoAddress :
      (enabled : Bool) (coins : List Text) (stand_ins : StandIns) (am : AddrManager)
      (kitty_id coin_type : Text) (committed tx : Db)
      → stand_ins coin_type ≡ none
      → NoAddress
          (service_bind_address_tx enabled coins stand_ins am kitty_id coin_type committed tx).0
  unfolding service_bind_address_tx
  service_bind_address_tx-NoAddress enabled coins stand_ins am kitty_id coin_type committed tx
        node =
      elim (Result-cases (may_bind enabled (is_bound kitty_id committed))) [
        | inl (e, bad) ↦ inr (e, ground arith)
        | inr (u, good) ↦
            rw (service_bind_address_tx, good)
              (bind_new-NoAddress coins stand_ins kitty_id coin_type
                (manager_new_address_with_tx am coin_type committed tx) node)
      ]
