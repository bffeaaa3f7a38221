-- ===== src/Scanner/Store/Origin.antt =====
-- Where the stored deposits come from (scanBlock of src/scanner/store.go).
use teller.Common.{
  ◌≡◌, ◌⊎◌, inl, inr, sym, ap, ◌∙◌, arith, Bool, true, false, some, List, [], ◌∷◌, Text, text_eq,
  text_eq_iff, ok, err, Error, Any, Any-use, Bool-cases,
}
use teller.Common.Txs.{bind_then}
use teller.Bolt.{Bolt}
use teller.Dbutil.{view}
use teller.Db.{Db}
use teller.Db.Laws.{update-ok, update-err}
use teller.Scanner.Types.{Deposit, id, not_processed, CommonBlock}
use teller.Scanner.Store.{
  get_scan_addresses_tx, scan_specified_block, push_new, push_all, scan_block_tx, scan_block,
}
use teller.Scanner.Store.Scanning.{PaidIn, scan_specified_block_iff}
use teller.Scanner.Store.Addresses.{get_scan_addresses_tx-ok, watched}
use teller.Scanner.Store.Rescan.{Pushed, push_new-Pushed, PushedAll, scan_block-PushedAll}

PaidIn-not_processed :
    (d : Deposit) (block : CommonBlock) (coin_type : Text) (l : List Text)
    → PaidIn d block coin_type l
    → d.status ≡ not_processed
PaidIn-not_processed d block coin_type l paid =
    Any-use block.raw_tx
      (λ t in_t.
        Any-use t.vout
          (λ v in_v. Any-use v.addresses (λ a hit. sym (ap (λ (x : Deposit). x.status) hit.1)) in_v)
          in_t)
      paid

module _ ⦃b : Bolt⦄ where
  -- A stored deposit was stored before as it is, or is one of the list, under its ID.
  abbrev pub FromList : List Deposit → Db → Db → Type 0
  FromList dvs db db' =
      (j : Text) (d : Deposit)
      → view db'.deposit_value j ≡ some d
      → (view db.deposit_value j ≡ some d) ⊎ ((id d ≡ j) × Any (λ (x : Deposit). x ≡ d) dvs)

  Pushed-FromList :
      (dv : Deposit) (new : Bool) (db db' : Db) → Pushed dv new db db' → FromList (dv ∷ []) db db'
  Pushed-FromList dv true db db' p j d h = elim (Bool-cases (text_eq (id dv) j)) [
    | inl same ↦
        inr (ground (arith, p.views j, text_eq_iff (id dv) j), inl (ground (arith, p.views j)))
    | inr other ↦ inl (ground (arith, p.views j))
  ]
  Pushed-FromList dv false db db' p j d h = inl (ground (arith, p.views j))

  push_all-FromList :
      (dvs : List Deposit) (db : Db) {pushed : List Deposit} {db' : Db}
      → push_all dvs db ≡ ok (pushed, db')
      → FromList dvs db db'
  unfolding push_all
  push_all-FromList [] db h j d e = inl (ground arith)
  push_all-FromList (dv ∷ dvs) db {pushed} {db'} h j d e =
      bind_then (push_new dv) _ db h λ n db1 e1 h1. bind_then (push_all dvs) _ db1 h1 λ l db2 e2 h2.
        let same : db2 ≡ db' = ground arith in
        elim (push_all-FromList dvs db1 e2 j d (ap (λ (x : Db). view x.deposit_value j) same ∙ e)) [
          | inr (key, here) ↦ inr (key, inr here)
          | inl before ↦ elim (Pushed-FromList dv n db db1 (push_new-Pushed dv db e1) j d before) [
            | inl old ↦ inl old
            | inr (key, inl same_d) ↦ inr (key, inl same_d)
            | inr (key, inr bad) ↦ elim bad [ ]
          ]
        ]

  found-FromList :
      (block : CommonBlock) (coin_type : Text) (db : Db) {dvs : List Deposit} {db' : Db}
      → scan_block block coin_type db ≡ (ok dvs, db')
      → FromList (scan_specified_block block coin_type (watched coin_type db)) db db'
  unfolding scan_block scan_block_tx
  found-FromList block coin_type db {dvs} {db'} h =
      bind_then (get_scan_addresses_tx coin_type) _ db
        (update-ok (scan_block_tx block coin_type) db h)
        λ l db1 e h1.
          let (list, same) = get_scan_addresses_tx-ok coin_type db e in
          let went : push_all (scan_specified_block block coin_type l) db ≡ ok (dvs, db') =
            rw same at h1 in
          rw (← list) (push_all-FromList (scan_specified_block block coin_type l) db went)

  -- When ScanBlock succeeds, there is a deposit under the ID of each deposit that the scan of
  -- the block finds for the watched addresses. What is stored under any key afterwards was
  -- stored there before as it is, or is one of the deposits found, under its own ID. The
  -- deposits returned had nothing stored under their IDs before and are stored as found; each
  -- deposit that was stored before is as it was, and only the bucket of deposits has changed.
  pub scan_block-FromList :
      (block : CommonBlock) (coin_type : Text) (db : Db) {dvs : List Deposit} {db' : Db}
      → scan_block block coin_type db ≡ (ok dvs, db')
      → PushedAll (scan_specified_block block coin_type (watched coin_type db)) dvs db db'
        × FromList (scan_specified_block block coin_type (watched coin_type db)) db db'
  scan_block-FromList block coin_type db h =
      (scan_block-PushedAll block coin_type db h, found-FromList block coin_type db h)

  -- What a scan has stored is new under the deposit's ID and not processed.
  pub scan_block-origin :
      (block : CommonBlock) (coin_type : Text) (db : Db) {dvs : List Deposit} {db' : Db} (j : Text)
      (d : Deposit)
      → scan_block block coin_type db ≡ (ok dvs, db')
      → view db'.deposit_value j ≡ some d
      → (view db.deposit_value j ≡ some d) ⊎ ((id d ≡ j) × (d.status ≡ not_processed))
  scan_block-origin block coin_type db j d h e = elim (found-FromList block coin_type db h j d e) [
    | inl old ↦ inl old
    | inr (key, here) ↦ inr (
      key,
      PaidIn-not_processed d block coin_type (watched coin_type db)
          ((scan_specified_block_iff block coin_type (watched coin_type db) d).0 here),
    )
  ]

  pub scan_block_failed :
      (block : CommonBlock) (coin_type : Text) (db : Db) {e : Error} {db' : Db}
      → scan_block block coin_type db ≡ (err e, db')
      → db' ≡ db
  unfolding scan_block
  scan_block_failed block coin_type db h = update-err (scan_block_tx block coin_type) db h
