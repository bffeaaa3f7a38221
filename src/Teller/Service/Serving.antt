-- ===== src/Teller/Service/Serving.antt =====
-- BindAddress of src/teller/teller.go, where it succeeds.
use teller.Common.{
  ◌≡◌, inl, inr, refl, arith, Bool, true, false, Option-cases, some, List, Text, Result,
  Result-cases, ok, err,
}
use teller.Bolt.{Bolt}
use teller.Db.{Db}
use teller.Addrs.{Generator, AddrManager, generator, set_pool, new_address, manager_new_address}
use teller.Addrs.Pool.{IsField, HandsOut, new_address-HandsOut}
use teller.Exchange.Types.{BoundAddress}
use teller.Exchange.Facade.{is_bound}
use teller.Exchange.Receive.{receive_bind_address}
use teller.Exchange.Receive.Binding.{BoundAndWatched, receive_bind_address-BoundAndWatched}
use teller.Teller.Service.{may_bind, bind_new, service_bind_address}

module _ ⦃b : Bolt⦄ where
  -- An address of the pool of the coin type is handed out, bound to the kitty and watched.
  pub record Served (enabled : Bool) (coins : List Text) (am : AddrManager)
      (kitty_id coin_type : Text) (db : Db) (bound : BoundAddress) (am' : AddrManager) (db' : Db)
      : Type 0 where
    pub is_enabled : enabled ≡ true
    pub was_free : is_bound kitty_id db ≡ false
    pub source : Generator
    pub registered : generator coin_type am ≡ some source
    pub left : List Text
    pub middle : Db
    pub handed : HandsOut source.bkt source.pool db bound.address left middle
    pub pools : am' ≡ set_pool coin_type left am
    pub made :
        bound ≡ record { kitty_id = kitty_id; address = bound.address; coin_type = coin_type }
    pub watched : BoundAndWatched coins bound middle db'

  abbrev pub AreFields : AddrManager → Type 0
  AreFields am = (c : Text) (g : Generator) → generator c am ≡ some g → IsField g.bkt

  may_bind-ok :
      (enabled bound : Bool) {u : Unit {0}}
      → may_bind enabled bound ≡ ok u
      → (enabled ≡ true) × (bound ≡ false)
  unfolding may_bind
  may_bind-ok false bound h = absurd (ground arith)
  may_bind-ok true true h = absurd (ground arith)
  may_bind-ok true false h = (refl, refl)

  serving :
      (enabled : Bool) (coins : List Text) (am : AddrManager) (kitty_id coin_type : Text) (db : Db)
      (g : Generator) (r : Result Text × List Text × Db) {bound : BoundAddress} {am' : AddrManager}
      {db' : Db}
      → (enabled ≡ true) × (is_bound kitty_id db ≡ false)
      → generator coin_type am ≡ some g
      → IsField g.bkt
      → new_address g.bkt g.pool db ≡ r
      → bind_new coins kitty_id coin_type (r.0, set_pool coin_type r.1 am, r.2)
        ≡ (ok bound, am', db')
      → Served enabled coins am kitty_id coin_type db bound am' db'
  unfolding bind_new
  serving enabled coins am kitty_id coin_type db g (err e, l, db1) may reg field took h =
      absurd (ground arith)
  serving enabled coins am kitty_id coin_type db g (ok addr, l, db1) {bound} {am'} {db'} may reg
        field took h =
      let step : receive_bind_address coins kitty_id addr coin_type db1 ≡ (ok bound, db') =
        ground arith in
      let (made, watched) =
        receive_bind_address-BoundAndWatched coins kitty_id addr coin_type db1 step in
      let handed = new_address-HandsOut g.bkt g.pool db field took in
      record {
        is_enabled = may.0;
        was_free = may.1;
        source = g;
        registered = reg;
        left = l;
        middle = db1;
        handed = rw made handed;
        pools = ground arith;
        made = ground (arith, made);
        watched = watched;
      }

  -- When BindAddress of the service succeeds, on pools whose buckets are read back as they were
  -- written, binding is enabled and IsBound was false; the address was handed out by the pool of
  -- the coin type, which loses it and those before it, and is used now; after that it is bound
  -- to the kitty and stands in the list that the scanner of the coin type watches; the answer is
  -- this binding.
  pub service_bind_address-Served :
      (enabled : Bool) (coins : List Text) (am : AddrManager) (kitty_id coin_type : Text) (db : Db)
      {bound : BoundAddress} {am' : AddrManager} {db' : Db}
      → AreFields am
      → service_bind_address enabled coins am kitty_id coin_type db ≡ (ok bound, am', db')
      → Served enabled coins am kitty_id coin_type db bound am' db'
  unfolding service_bind_address manager_new_address bind_new
  service_bind_address-Served enabled coins am kitty_id coin_type db {bound} {am'} {db'} fields h =
      elim (Result-cases (may_bind enabled (is_bound kitty_id db))) [
        | inl (e, bad) ↦ absurd (ground arith)
        | inr (u, good) ↦ elim (Option-cases (generator coin_type am)) [
          | inl missing ↦ absurd (ground arith)
          | inr (g, reg) ↦
              serving enabled coins am kitty_id coin_type db g (new_address g.bkt g.pool db)
                (may_bind-ok enabled _ good) reg (fields coin_type g reg) refl (ground arith)
        ]
      ]
