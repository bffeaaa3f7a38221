-- ===== src/Scanner/Store/Addresses.antt =====
-- The watched addresses of each coin type (src/scanner/store.go).
use teller.Common.{
  ◌≡◌, arith, false, not, [], ◌∷◌, ◌++◌, List, Text, text_eq, text_eq_iff, text_eq_refl, ok, inl,
  inr, ◌⊎◌, if◌then◌else◌,
}
use teller.Common.Txs.{bind_then, guard_then, lift_then}
use teller.Bolt.{Bolt}
use teller.Dbutil.{view}
use teller.Db.{Db, Field}
use teller.Db.Access.{put_object}
use teller.Db.Buckets.{get_scan_meta_bkt, scan_meta_btc_bkt, scan_meta_sky_bkt}
use teller.Db.Laws.{find_then, put_object-ok, update-ok}
use teller.Scanner.Types.{coin_btc, coin_sky}
use teller.Scanner.Store.{
  deposit_addresses_key, listed, or_nil, get_scan_addresses_tx, add_scan_address_tx,
  add_scan_address,
}

module _ ⦃b : Bolt⦄ where
  -- The list that is stored for a coin type.
  abbrev pub watched : Text → Db → List Text
  watched coin_type db =
      if text_eq coin_type coin_btc
      then or_nil (view db.scan_meta_btc deposit_addresses_key)
      else if text_eq coin_type coin_sky
      then or_nil (view db.scan_meta_sky deposit_addresses_key)
      else []

  get_scan_meta_bkt-read :
      (coin_type : Text) (db : Db) {bkt : Field (List Text)}
      → get_scan_meta_bkt coin_type ≡ ok bkt
      → or_nil (view (bkt.read db) deposit_addresses_key) ≡ watched coin_type db
  unfolding get_scan_meta_bkt
  get_scan_meta_bkt-read coin_type db h = ground arith

  pub get_scan_addresses_tx-ok :
      (coin_type : Text) (db : Db) {l : List Text} {db' : Db}
      → get_scan_addresses_tx coin_type db ≡ ok (l, db')
      → (l ≡ watched coin_type db) × (db' ≡ db)
  unfolding get_scan_addresses_tx
  get_scan_addresses_tx-ok coin_type db h =
      lift_then (get_scan_meta_bkt coin_type) _ db h λ bkt name h1.
        find_then bkt deposit_addresses_key _ db h1
          λ o seen h2. (ground (arith, get_scan_meta_bkt-read coin_type db name), ground arith)

  get_scan_meta_bkt-which :
      (coin_type : Text) {bkt : Field (List Text)}
      → get_scan_meta_bkt coin_type ≡ ok bkt
      → ((coin_type ≡ coin_btc) × (bkt ≡ scan_meta_btc_bkt))
        ⊎ ((coin_type ≡ coin_sky) × (bkt ≡ scan_meta_sky_bkt))
  unfolding get_scan_meta_bkt
  get_scan_meta_bkt-which coin_type h =
      ground (arith, text_eq_iff coin_type coin_btc, text_eq_iff coin_type coin_sky)

  -- The address was not in the list of its coin type and now stands at its end; the list of any
  -- other coin type, and every other bucket, is as it was.
  pub record Watches (addr coin_type : Text) (db db' : Db) : Type 0 where
    pub was_new : listed addr (watched coin_type db) ≡ false
    pub lists :
        (c : Text)
        → watched c db'
          ≡ (if text_eq coin_type c then watched coin_type db ++ (addr ∷ []) else watched c db)
    pub rest :
        db' ≡ record db { scan_meta_btc = db'.scan_meta_btc; scan_meta_sky = db'.scan_meta_sky }

  put_object-Watches :
      (bkt : Field (List Text)) (addr coin_type : Text) (db : Db) {u : Unit {0}} {db' : Db}
      → ((coin_type ≡ coin_btc) × (bkt ≡ scan_meta_btc_bkt))
        ⊎ ((coin_type ≡ coin_sky) × (bkt ≡ scan_meta_sky_bkt))
      → listed addr (watched coin_type db) ≡ false
      → put_object bkt deposit_addresses_key (watched coin_type db ++ (addr ∷ [])) db ≡ ok (u, db')
      → Watches addr coin_type db db'
  put_object-Watches bkt addr coin_type db {u} {db'} (inl (is_btc, at_btc)) new h =
      let l = watched coin_type db ++ (addr ∷ []) in
      let h' : put_object scan_meta_btc_bkt deposit_addresses_key l db ≡ ok (u, db') =
        rw at_btc at h in
      let (t, wrote, views, ne) = put_object-ok scan_meta_btc_bkt deposit_addresses_key l db h' in
      record {
        was_new = new;
        lists = λ c. ground (
          arith,
          views deposit_addresses_key,
          text_eq_refl deposit_addresses_key,
          text_eq_iff c coin_btc,
          text_eq_iff coin_type c,
        );
        rest = ground arith;
      }
  put_object-Watches bkt addr coin_type db {u} {db'} (inr (is_sky, at_sky)) new h =
      let l = watched coin_type db ++ (addr ∷ []) in
      let h' : put_object scan_meta_sky_bkt deposit_addresses_key l db ≡ ok (u, db') =
        rw at_sky at h in
      let (t, wrote, views, ne) = put_object-ok scan_meta_sky_bkt deposit_addresses_key l db h' in
      record {
        was_new = new;
        lists = λ c. ground (
          arith,
          views deposit_addresses_key,
          text_eq_refl deposit_addresses_key,
          text_eq_iff c coin_btc,
          text_eq_iff c coin_sky,
          text_eq_iff coin_type c,
        );
        rest = ground arith;
      }

  add_scan_address_tx-Watches :
      (addr coin_type : Text) (db : Db) {u : Unit {0}} {db' : Db}
      → add_scan_address_tx addr coin_type db ≡ ok (u, db')
      → Watches addr coin_type db db'
  unfolding add_scan_address_tx
  add_scan_address_tx-Watches addr coin_type db {u} {db'} h =
      bind_then (get_scan_addresses_tx coin_type) _ db h λ l db1 e1 h1.
        guard_then (not (listed addr l)) _ _ db1 h1 λ new h2.
          lift_then (get_scan_meta_bkt coin_type) _ db1 h2 λ bkt name h3.
            let (list, same) = get_scan_addresses_tx-ok coin_type db e1 in
            put_object-Watches bkt addr coin_type db (get_scan_meta_bkt-which coin_type name)
              (ground arith) (ground arith)

  -- When AddScanAddress succeeds, the address was not in the list of its coin type and is now
  -- its last element; the list of any other coin type, and every other bucket, is as it was.
  pub add_scan_address-Watches :
      (addr coin_type : Text) (db : Db) {u : Unit {0}} {db' : Db}
      → add_scan_address addr coin_type db ≡ (ok u, db')
      → Watches addr coin_type db db'
  unfolding add_scan_address
  add_scan_address-Watches addr coin_type db h =
      add_scan_address_tx-Watches addr coin_type db
        (update-ok (add_scan_address_tx addr coin_type) db h)
