-- ===== src/Exchange/Receive/Binding.antt =====
-- What Receive.BindAddress (src/exchange/receiver.go) leaves in the exchange and in the scanner.
use teller.Common.{
  ◌⊎◌, Result-cases, refl, ◌≡◌, inl, inr, arith, true, Bool-cases, List, Text, Result, ok, err,
}
use teller.Bolt.{Bolt}
use teller.Db.{Db}
use teller.Scanner.Store.{listed, add_scan_address}
use teller.Scanner.Store.Addresses.{Watches, add_scan_address-Watches}
use teller.Exchange.Types.{BoundAddress}
use teller.Exchange.Store.{bind_address}
use teller.Exchange.Store.Bindings.{Binds, bind_address-Binds}
use teller.Exchange.Receive.{
  validate_coin_type, multiplexer_add_scan_address, returning, then_watch, receive_bind_address,
}

module _ ⦃b : Bolt⦄ where
  -- The address is bound and then watched; `middle` is the database between the two transactions.
  pub record BoundAndWatched (coins : List Text) (bound : BoundAddress) (db db' : Db) : Type 0 where
    pub scanned : listed bound.coin_type coins ≡ true
    pub middle : Db
    pub binds : Binds bound db middle
    pub watches : Watches bound.address bound.coin_type middle db'

  returning-ok :
      (bound : BoundAddress) (r : Result (Unit {0}) × Db) {bound' : BoundAddress} {db' : Db}
      → returning bound r ≡ (ok bound', db')
      → (bound' ≡ bound) × (r ≡ (ok tt, db'))
  unfolding returning
  returning-ok bound (err e, db) h = absurd (ground arith)
  returning-ok bound (ok u, db) h = (ground arith, ground arith)

  then_watch-BoundAndWatched :
      (coins : List Text) (kitty_id deposit_addr coin_type : Text) (db : Db)
      (r : Result BoundAddress × Db) {bound : BoundAddress} {db' : Db}
      → listed coin_type coins ≡ true
      → bind_address kitty_id deposit_addr coin_type db ≡ r
      → then_watch coins deposit_addr coin_type r ≡ (ok bound, db')
      → (bound ≡ record { kitty_id = kitty_id; address = deposit_addr; coin_type = coin_type })
        × BoundAndWatched coins bound db db'
  unfolding then_watch multiplexer_add_scan_address
  then_watch-BoundAndWatched coins kitty_id deposit_addr coin_type db (err bad, db1) there e h =
      absurd (ground arith)
  then_watch-BoundAndWatched coins kitty_id deposit_addr coin_type db (ok bound1, db1) {bound} {db'}
        there e h =
      let (same, added) =
        returning-ok bound1 (multiplexer_add_scan_address coins deposit_addr coin_type db1) h in
      let went : add_scan_address deposit_addr coin_type db1 ≡ (ok tt, db') = ground arith in
      let (made, binds) = bind_address-Binds kitty_id deposit_addr coin_type db e in
      let w = add_scan_address-Watches deposit_addr coin_type db1 went in
      (
        ground arith,
        rw same (record {
          scanned = ground (arith, made);
          middle = db1;
          binds = binds;
          watches = rw made w;
        }),
      )

  -- When BindAddress of the receiver succeeds, the multiplexer has a scanner of the coin type
  -- and the binding of the address to the kitty is returned; between its two transactions the
  -- address has got this binding, being free before, and nothing else has changed; after them
  -- the address stands at the end of the list that its scanner watches, where it was not before,
  -- and nothing else has changed.
  pub receive_bind_address-BoundAndWatched :
      (coins : List Text) (kitty_id deposit_addr coin_type : Text) (db : Db) {bound : BoundAddress}
      {db' : Db}
      → receive_bind_address coins kitty_id deposit_addr coin_type db ≡ (ok bound, db')
      → (bound ≡ record { kitty_id = kitty_id; address = deposit_addr; coin_type = coin_type })
        × BoundAndWatched coins bound db db'
  unfolding receive_bind_address validate_coin_type
  receive_bind_address-BoundAndWatched coins kitty_id deposit_addr coin_type db {bound} {db'} h =
      elim (Bool-cases (listed coin_type coins)) [
        | inl there ↦
            let next : then_watch coins deposit_addr coin_type
                  (bind_address kitty_id deposit_addr coin_type db)
                ≡ (ok bound, db') =
              ground arith in
            then_watch-BoundAndWatched coins kitty_id deposit_addr coin_type db
              (bind_address kitty_id deposit_addr coin_type db) there refl next
        | inr missing ↦ absurd (ground arith)
      ]

  then_watch_db :
      (coins : List Text) (addr c : Text) (r : Result BoundAddress × Db)
      → ((then_watch coins addr c r).1 ≡ r.1)
        ⊎ ((then_watch coins addr c r).1 ≡ (add_scan_address addr c r.1).1)
  unfolding then_watch multiplexer_add_scan_address returning
  then_watch_db coins addr c (err e, db) = inl refl
  then_watch_db coins addr c (ok bound, db) = elim (Bool-cases (listed c coins)) [
    | inl there ↦ elim (Result-cases (add_scan_address addr c db).0) [
      | inl (e, bad) ↦ inr (ground arith)
      | inr (u, good) ↦ inr (ground arith)
    ]
    | inr missing ↦ inl (ground arith)
  ]

  -- The database after BindAddress of the receiver, on every branch.
  pub receive_bind_address_db :
      (coins : List Text) (kitty_id addr c : Text) (db : Db)
      → ((receive_bind_address coins kitty_id addr c db).1 ≡ db)
        ⊎ (((receive_bind_address coins kitty_id addr c db).1 ≡ (bind_address kitty_id addr c db).1)
            ⊎ ((receive_bind_address coins kitty_id addr c db).1
                ≡ (add_scan_address addr c (bind_address kitty_id addr c db).1).1))
  unfolding receive_bind_address validate_coin_type
  receive_bind_address_db coins kitty_id addr c db = elim (Bool-cases (listed c coins)) [
    | inl there ↦ elim (then_watch_db coins addr c (bind_address kitty_id addr c db)) [
      | inl same ↦ inr (inl (ground arith))
      | inr same ↦ inr (inr (ground arith))
    ]
    | inr missing ↦ inl (ground arith)
  ]
