-- ===== src/Exchange/Store/Bindings.antt =====
-- Which kitty a deposit address is bound to, as src/exchange/store.go reads and writes it.
use teller.Common.{
  refl, not-is_some, ◌≡◌, sym, ◌∙◌, arith, not, Option, none, some, Text, text_eq, ok, err, is_some,
  if◌then◌else◌, subst, inl, inr, ◌⊎◌, Result-cases, Bool-cases, address_already_bound, text_eq_iff,
  ◌&&◌,
}
use teller.Common.Txs.{bind_then, guard_then, lift_then}
use teller.Bolt.{Bolt}
use teller.Dbutil.{view}
use teller.Db.{Db, Field}
use teller.Db.Access.{put_object, update}
use teller.Db.Buckets.{get_bind_address_bkt, bind_address_btc_bkt, bind_address_sky_bkt}
use teller.Db.Laws.{find_object-ok, find_object-some, update_fails, put_object-ok, update-ok}
use teller.Scanner.Types.{coin_btc, coin_sky}
use teller.Exchange.Types.{BoundAddress}
use teller.Exchange.Store.{get_bind_address_tx, bind_in, bind_address}

module _ ⦃b : Bolt⦄ where
  -- The binding of an address among those of one coin type.
  abbrev pub bound_to : Text → Text → Db → Option BoundAddress
  bound_to coin_type addr db =
      if text_eq coin_type coin_btc
      then view db.bind_address_btc addr
      else if text_eq coin_type coin_sky
      then view db.bind_address_sky addr
      else none

  get_bind_address_bkt-read :
      (coin_type addr : Text) (db : Db) {bkt : Field BoundAddress}
      → get_bind_address_bkt coin_type ≡ ok bkt
      → view (bkt.read db) addr ≡ bound_to coin_type addr db
  unfolding get_bind_address_bkt
  get_bind_address_bkt-read coin_type addr db h = ground arith

  pub get_bind_address_tx-ok :
      (addr coin_type : Text) (db : Db) {o : Option BoundAddress} {db' : Db}
      → get_bind_address_tx addr coin_type db ≡ ok (o, db')
      → (o ≡ bound_to coin_type addr db) × (db' ≡ db)
  unfolding get_bind_address_tx
  get_bind_address_tx-ok addr coin_type db h =
      lift_then (get_bind_address_bkt coin_type) _ db h λ bkt e h1.
        let (seen, same) = find_object-ok bkt addr db h1 in
        (sym seen ∙ get_bind_address_bkt-read coin_type addr db e, same)

  get_bind_address_bkt-write :
      (coin_type : Text) {bkt : Field BoundAddress}
      → get_bind_address_bkt coin_type ≡ ok bkt
      → ((coin_type ≡ coin_btc) × (bkt ≡ bind_address_btc_bkt))
        ⊎ ((coin_type ≡ coin_sky) × (bkt ≡ bind_address_sky_bkt))
  unfolding get_bind_address_bkt
  get_bind_address_bkt-write coin_type h =
      ground (arith, text_eq_iff coin_type coin_btc, text_eq_iff coin_type coin_sky)

  -- An address has got its binding, and no other binding has changed.
  pub record Binds (bound : BoundAddress) (db db' : Db) : Type 0 where
    pub was_free : bound_to bound.coin_type bound.address db ≡ none
    pub bindings :
        (c a : Text)
        → bound_to c a db' ≡ (
            if text_eq bound.coin_type c && text_eq bound.address a
            then some bound
            else bound_to c a db)
    pub rest : db' ≡ record db {
      bind_address_btc = db'.bind_address_btc;
      bind_address_sky = db'.bind_address_sky;
    }

  put_object-Binds :
      (bkt : Field BoundAddress) (bound : BoundAddress) (db : Db) {u : Unit {0}} {db' : Db}
      → ((bound.coin_type ≡ coin_btc) × (bkt ≡ bind_address_btc_bkt))
        ⊎ ((bound.coin_type ≡ coin_sky) × (bkt ≡ bind_address_sky_bkt))
      → bound_to bound.coin_type bound.address db ≡ none
      → put_object bkt bound.address bound db ≡ ok (u, db')
      → Binds bound db db'
  put_object-Binds bkt bound db {u} {db'} (inl (is_btc, at_btc)) free h =
      let h' : put_object bind_address_btc_bkt bound.address bound db ≡ ok (u, db') =
        rw at_btc at h in
      let (t, wrote, views, ne) = put_object-ok bind_address_btc_bkt bound.address bound db h' in
      record {
        was_free = free;
        bindings =
            λ c a. ground (arith, views a, text_eq_iff c coin_btc, text_eq_iff bound.coin_type c);
        rest = ground arith;
      }
  put_object-Binds bkt bound db {u} {db'} (inr (is_sky, at_sky)) free h =
      let h' : put_object bind_address_sky_bkt bound.address bound db ≡ ok (u, db') =
        rw at_sky at h in
      let (t, wrote, views, ne) = put_object-ok bind_address_sky_bkt bound.address bound db h' in
      record {
        was_free = free;
        bindings = λ c a. ground (
          arith,
          views a,
          text_eq_iff c coin_btc,
          text_eq_iff c coin_sky,
          text_eq_iff bound.coin_type c,
        );
        rest = ground arith;
      }

  pub bind_in-Binds :
      (bkt : Field BoundAddress) (bound : BoundAddress) (db : Db) {r : BoundAddress} {db' : Db}
      → get_bind_address_bkt bound.coin_type ≡ ok bkt
      → bind_in bkt bound db ≡ ok (r, db')
      → (r ≡ bound) × Binds bound db db'
  unfolding bind_in
  bind_in-Binds bkt bound db name h =
      bind_then (get_bind_address_tx bound.address bound.coin_type) _ db h λ existing db1 e1 h1.
        guard_then (not (is_some existing)) _ _ db1 h1 λ absent h2.
          bind_then (put_object bkt bound.address bound) _ db1 h2 λ u db2 e2 h3.
            let (found, same) = get_bind_address_tx-ok bound.address bound.coin_type db e1 in
            let free : bound_to bound.coin_type bound.address db ≡ none =
              sym found ∙ not-is_some existing refl absent in
            let went : put_object bkt bound.address bound db ≡ ok (u, db2) = rw same at e2 in
            let made =
              put_object-Binds bkt bound db (get_bind_address_bkt-write bound.coin_type name) free
                went in
            (ground arith, subst (Binds bound db) (ground arith) made)

  -- When BindAddress succeeds, it returns the binding of the address to the kitty; the address
  -- had no binding under this coin type before, it has the one returned now, every other binding
  -- of any coin type is as it was, and so is every bucket but those of the bindings.
  pub bind_address-Binds :
      (kitty_id deposit_addr coin_type : Text) (db : Db) {r : BoundAddress} {db' : Db}
      → bind_address kitty_id deposit_addr coin_type db ≡ (ok r, db')
      → (r ≡ record { kitty_id = kitty_id; address = deposit_addr; coin_type = coin_type })
        × Binds r db db'
  unfolding bind_address
  bind_address-Binds kitty_id deposit_addr coin_type db {r} {db'} h =
      elim (Result-cases (get_bind_address_bkt coin_type)) [
        | inl (e, bad) ↦ absurd (ground arith)
        | inr (bkt, name) ↦
            let bound : BoundAddress = record {
              kitty_id = kitty_id;
              address = deposit_addr;
              coin_type = coin_type;
            } in
            let h' : update (bind_in bkt bound) db ≡ (ok r, db') = rw (name, bind_address) at h in
            let (same, made) =
              bind_in-Binds bkt bound db name (update-ok (bind_in bkt bound) db h') in
            (same, rw same made)
      ]

  bound_to-bkt :
      (coin_type addr : Text) (db : Db) {old : BoundAddress}
      → bound_to coin_type addr db ≡ some old
      → (bkt : Field BoundAddress) × (get_bind_address_bkt coin_type ≡ ok bkt)
        × (view (bkt.read db) addr ≡ some old)
  unfolding get_bind_address_bkt
  bound_to-bkt coin_type addr db h = elim (Bool-cases (text_eq coin_type coin_btc)) [
    | inl btc ↦ (bind_address_btc_bkt, rw btc, ground arith)
    | inr other ↦ elim (Bool-cases (text_eq coin_type coin_sky)) [
      | inl sky ↦ (bind_address_sky_bkt, rw (other, sky), ground arith)
      | inr none_such ↦ absurd (ground arith)
    ]
  ]

  bind_in_refused :
      (bkt : Field BoundAddress) (bound : BoundAddress) (db : Db) {old : BoundAddress}
      → get_bind_address_bkt bound.coin_type ≡ ok bkt
      → view (bkt.read db) bound.address ≡ some old
      → bind_in bkt bound db ≡ err address_already_bound
  unfolding bind_in get_bind_address_tx
  bind_in_refused bkt bound db name seen =
      ground (arith, find_object-some bkt bound.address db seen)

  -- Where an address is bound under a coin type already, BindAddress to any kitty fails with
  -- ErrAddressAlreadyBound and changes nothing.
  pub bind_address_again :
      (kitty_id deposit_addr coin_type : Text) (db : Db) {old : BoundAddress}
      → bound_to coin_type deposit_addr db ≡ some old
      → bind_address kitty_id deposit_addr coin_type db ≡ (err address_already_bound, db)
  unfolding bind_address
  bind_address_again kitty_id deposit_addr coin_type db h =
      let (bkt, name, seen) = bound_to-bkt coin_type deposit_addr db h in
      let bound : BoundAddress = record {
        kitty_id = kitty_id;
        address = deposit_addr;
        coin_type = coin_type;
      } in
      rw (name, bind_address)
        (update_fails (bind_in bkt bound) db (bind_in_refused bkt bound db name seen))
