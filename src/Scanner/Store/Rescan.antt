-- ===== src/Scanner/Store/Rescan.antt =====
-- scanBlock of src/scanner/store.go: what it stores, and that a second scan finds nothing new.
use teller.Common.{
  ◌≡◌, refl, subst, arith, Bool, true, false, not, Option-cases, Option, none, some, [], ◌∷◌, List,
  Text, text_eq, text_eq_iff, text_eq_refl, Result, ok, err, inl, inr, if◌then◌else◌,
  deposit_exists, All, is_some, ◌&&◌,
}
use teller.Common.Txs.{bind_then, guard_then}
use teller.Bolt.{Bolt}
use teller.Dbutil.{view}
use teller.Db.{Db}
use teller.Db.Access.{put_object, has_key, find_object}
use teller.Db.Buckets.{deposit_bkt, get_scan_meta_bkt}
use teller.Db.Laws.{has_then, put_object-ok, update-ok, update_commits, has_key-some}
use teller.Dbutil.{bucket_has_key, put_bucket_value}
use teller.Scanner.Types.{Deposit, CommonBlock, id}
use teller.Scanner.Store.{
  get_scan_addresses_tx, scan_specified_block, push_deposit_tx, push_new, cons_if, push_all,
  scan_block_tx, scan_block,
}
use teller.Scanner.Store.Addresses.{get_scan_addresses_tx-ok, watched}

module _ ⦃b : Bolt⦄ where
  -- A deposit is stored under its ID, unless one was; nothing else has changed.
  pub record Pushed (dv : Deposit) (new : Bool) (db db' : Db) : Type 0 where
    pub was_new : new ≡ not (is_some (view db.deposit_value (id dv)))
    pub views :
        (j : Text)
        → view db'.deposit_value j
          ≡ (if new && text_eq (id dv) j then some dv else view db.deposit_value j)
    pub rest : db' ≡ record db { deposit_value = db'.deposit_value }

  push_deposit_tx-Pushed :
      (dv : Deposit) (db : Db) {u : Unit {0}} {db' : Db}
      → push_deposit_tx dv db ≡ ok (u, db')
      → Pushed dv true db db'
  unfolding push_deposit_tx
  push_deposit_tx-Pushed dv db h = has_then deposit_bkt (id dv) _ db h λ has seen h1.
      guard_then (not has) _ _ db h1 λ absent h2.
        let (t, wrote, views, ne) = put_object-ok deposit_bkt (id dv) dv db h2 in
        record { was_new = ground arith; views = λ j. ground (arith, views j); rest = ground arith }

  push_deposit_tx-exists :
      (dv : Deposit) (db : Db)
      → push_deposit_tx dv db ≡ err deposit_exists
      → is_some (view db.deposit_value (id dv)) ≡ true
  unfolding push_deposit_tx has_key bucket_has_key put_object put_bucket_value view
  push_deposit_tx-exists dv db h = ground arith

  push_new_by :
      (dv : Deposit) (db : Db) (r : Result (Unit {0} × Db)) {new : Bool} {db' : Db}
      → push_deposit_tx dv db ≡ r
      → push_new dv db ≡ ok (new, db')
      → Pushed dv new db db'
  unfolding push_new
  push_new_by dv db (ok (u, db1)) {new} {db'} e h =
      let is_new : new ≡ true = ground arith in
      let same : db1 ≡ db' = ground arith in
      rw is_new (subst (Pushed dv true db) same (push_deposit_tx-Pushed dv db e))
  push_new_by dv db (err deposit_exists) e h =
      let there = push_deposit_tx-exists dv db e in
      record { was_new = ground arith; views = λ j. ground arith; rest = ground arith }
  push_new_by dv db (err x) e h = absurd (ground arith)

  pub push_new-Pushed :
      (dv : Deposit) (db : Db) {new : Bool} {db' : Db}
      → push_new dv db ≡ ok (new, db')
      → Pushed dv new db db'
  push_new-Pushed dv db h = push_new_by dv db (push_deposit_tx dv db) refl h

  push_new_known :
      (dv : Deposit) (db : Db)
      → is_some (view db.deposit_value (id dv)) ≡ true
      → push_new dv db ≡ ok (false, db)
  unfolding push_new push_deposit_tx
  push_new_known dv db there = ground (arith, has_key-some deposit_bkt (id dv) db there)

  -- There is a deposit under the ID of each of the list; those returned had none before, and are stored
  -- as found; what was stored before is as it was.
  pub record PushedAll (dvs pushed : List Deposit) (db db' : Db) : Type 0 where
    pub stored : All (λ (dv : Deposit). is_some (view db'.deposit_value (id dv)) ≡ true) dvs
    pub new :
        All
          (λ (dv : Deposit).
            (view db.deposit_value (id dv) ≡ none) × (view db'.deposit_value (id dv) ≡ some dv))
          pushed
    pub kept :
        (j : Text) (old : Deposit)
        → view db.deposit_value j ≡ some old
        → view db'.deposit_value j ≡ some old
    pub rest : db' ≡ record db { deposit_value = db'.deposit_value }

  new_before :
      (dvs : List Deposit) (db db1 db' : Db) {n : Bool} {dv : Deposit}
      → Pushed dv n db db1
      → All
          (λ (d : Deposit).
            (view db1.deposit_value (id d) ≡ none) × (view db'.deposit_value (id d) ≡ some d))
          dvs
      → All
          (λ (d : Deposit).
            (view db.deposit_value (id d) ≡ none) × (view db'.deposit_value (id d) ≡ some d))
          dvs
  new_before [] db db1 db' p a = tt
  new_before (d ∷ dvs) db db1 db' p (a, rest) =
      ((ground (arith, p.views (id d)), a.1), new_before dvs db db1 db' p rest)

  still_there :
      (dv : Deposit) (db db1 db' : Db) {n : Bool} {dvs l : List Deposit}
      → Pushed dv n db db1
      → PushedAll dvs l db1 db'
      → is_some (view db'.deposit_value (id dv)) ≡ true
  still_there dv db db1 db' p all = elim (Option-cases (view db1.deposit_value (id dv))) [
    | inl gone ↦ absurd (ground (arith, p.was_new, p.views (id dv), text_eq_refl (id dv)))
    | inr (old, e) ↦ rw (all.kept (id dv) old e)
  ]

  PushedAll-cons :
      (dv : Deposit) (dvs l : List Deposit) (n : Bool) (db db1 db' : Db)
      → Pushed dv n db db1
      → PushedAll dvs l db1 db'
      → PushedAll (dv ∷ dvs) (cons_if n dv l) db db'
  PushedAll-cons dv dvs l true db db1 db' p all = record {
    stored = (still_there dv db db1 db' p all, all.stored);
    new = (
      (
        ground (arith, p.was_new),
        all.kept (id dv) dv (ground (arith, p.views (id dv), text_eq_refl (id dv))),
      ),
      new_before l db db1 db' p all.new,
    );
    kept = λ j old e. all.kept j old (ground (arith, p.was_new, p.views j, text_eq_iff (id dv) j));
    rest = ground (arith, p.rest, all.rest);
  }
  PushedAll-cons dv dvs l false db db1 db' p all = record {
    stored = (still_there dv db db1 db' p all, all.stored);
    new = new_before l db db1 db' p all.new;
    kept = λ j old e. all.kept j old (ground (arith, p.views j));
    rest = ground (arith, p.rest, all.rest);
  }

  pub push_all-PushedAll :
      (dvs : List Deposit) (db : Db) {pushed : List Deposit} {db' : Db}
      → push_all dvs db ≡ ok (pushed, db')
      → PushedAll dvs pushed db db'
  unfolding push_all
  push_all-PushedAll [] db {pushed} {db'} h =
      let none_pushed : [] ≡ pushed = ground arith in
      let same : db ≡ db' = ground arith in
      subst (PushedAll [] pushed db) same (
        subst (λ l. PushedAll [] l db db) none_pushed
          (record { stored = tt; new = tt; kept = λ j old e. e; rest = refl }))
  push_all-PushedAll (dv ∷ dvs) db {pushed} {db'} h = bind_then (push_new dv) _ db h λ n db1 e h1.
      bind_then (push_all dvs) _ db1 h1 λ l db2 e2 h2.
        let result : cons_if n dv l ≡ pushed = ground arith in
        let same : db2 ≡ db' = ground arith in
        subst (PushedAll (dv ∷ dvs) pushed db) same (
          subst (λ r. PushedAll (dv ∷ dvs) r db db2) result
            (PushedAll-cons dv dvs l n db db1 db2 (push_new-Pushed dv db e)
              (push_all-PushedAll dvs db1 e2)))

  push_all_known :
      (dvs : List Deposit) (db : Db)
      → All (λ (dv : Deposit). is_some (view db.deposit_value (id dv)) ≡ true) dvs
      → push_all dvs db ≡ ok ([], db)
  unfolding push_all
  push_all_known [] db a = refl
  push_all_known (dv ∷ dvs) db (there, a) =
      ground (arith, push_new_known dv db there, push_all_known dvs db a)

  -- A successful scan, as the pushing of what it finds for the watched addresses.
  pub scan_block-PushedAll :
      (block : CommonBlock) (coin_type : Text) (db : Db) {dvs : List Deposit} {db' : Db}
      → scan_block block coin_type db ≡ (ok dvs, db')
      → PushedAll (scan_specified_block block coin_type (watched coin_type db)) dvs db db'
  unfolding scan_block scan_block_tx
  scan_block-PushedAll block coin_type db {dvs} {db'} h =
      bind_then (get_scan_addresses_tx coin_type) _ db
        (update-ok (scan_block_tx block coin_type) db h)
        λ l db1 e h1.
          let (list, same) = get_scan_addresses_tx-ok coin_type db e in
          let went : push_all (scan_specified_block block coin_type l) db ≡ ok (dvs, db') =
            rw same at h1 in
          subst (λ w. PushedAll (scan_specified_block block coin_type w) dvs db db') list
            (push_all-PushedAll (scan_specified_block block coin_type l) db went)

  get_scan_addresses_tx-deposits :
      (coin_type : Text) (db : Db) (t : Option (b.Bucket Deposit)) {l : List Text} {db1 : Db}
      → get_scan_addresses_tx coin_type db ≡ ok (l, db1)
      → get_scan_addresses_tx coin_type (record db { deposit_value = t })
        ≡ ok (l, record db { deposit_value = t })
  unfolding get_scan_addresses_tx get_scan_meta_bkt find_object
  get_scan_addresses_tx-deposits coin_type db t h = ground arith

  scan_block_tx_again :
      (block : CommonBlock) (coin_type : Text) (db : Db) {dvs : List Deposit} {db' : Db}
      → scan_block_tx block coin_type db ≡ ok (dvs, db')
      → scan_block_tx block coin_type db' ≡ ok ([], db')
  unfolding scan_block_tx
  scan_block_tx_again block coin_type db {dvs} {db'} h =
      bind_then (get_scan_addresses_tx coin_type) _ db h λ l db1 e h1.
        let (list, same) = get_scan_addresses_tx-ok coin_type db e in
        let found = scan_specified_block block coin_type l in
        let went : push_all found db ≡ ok (dvs, db') = rw same at h1 in
        let all = push_all-PushedAll found db went in
        let read : get_scan_addresses_tx coin_type db' ≡ ok (l, db') =
          rw all.rest (get_scan_addresses_tx-deposits coin_type db db'.deposit_value e) in
        ground (arith, read, push_all_known found db' all.stored)

  -- When ScanBlock has succeeded on a block and commits go through, scanning the same block
  -- again finds no new deposit and changes nothing.
  pub scan_block_again :
      (block : CommonBlock) (coin_type : Text) (db : Db) {dvs : List Deposit} {db' : Db}
      → scan_block block coin_type db ≡ (ok dvs, db')
      → b.commits db' ≡ true
      → scan_block block coin_type db' ≡ (ok [], db')
  unfolding scan_block
  scan_block_again block coin_type db {dvs} {db'} h c =
      update_commits (scan_block_tx block coin_type) db'
        (scan_block_tx_again block coin_type db (update-ok (scan_block_tx block coin_type) db h)) c
