-- ===== src/System/Kept.antt =====
-- No transaction of the service loses a deposit or a DepositInfo, and a binding leaves them alone.
use teller.Common.{
  ℕ, ◌≡◌, inl, inr, refl, sym, ap, ◌∙◌, subst, arith, true, Option-cases, is_some, List, [], Text,
  Result, ok, err, Result-cases,
}
use teller.Bolt.{Bolt}
use teller.Dbutil.{view}
use teller.Db.{Db}
use teller.Db.Buckets.{get_bind_address_bkt}
use teller.Db.Laws.{update-err}
use teller.Scanner.Types.{Deposit, id, CommonBlock}
use teller.Scanner.Store.{scan_block, set_deposit_processed, add_scan_address, add_scan_address_tx}
use teller.Scanner.Store.Rescan.{scan_block-PushedAll}
use teller.Scanner.Store.Processed.{set_deposit_processed-Marked}
use teller.Scanner.Store.Addresses.{add_scan_address-Watches}
use teller.Exchange.Types.{BoundAddress, DepositInfo}
use teller.Exchange.Store.{bind_in, bind_address, get_or_create_deposit_info}
use teller.Exchange.Store.Bindings.{bind_address-Binds}
use teller.Exchange.Store.Recording.{get_or_create-Created}
use teller.Exchange.Receive.{receive_bind_address}
use teller.Exchange.Receive.Binding.{receive_bind_address_db}
use teller.Exchange.Receive.Rounds.{get_or_create_unchanged, get_or_create_failed}
use teller.Exchange.Buy.{update_status}
use teller.Exchange.Buy.Payment.{update_status-PartlyPaid}
use teller.System.Database.{IsSound}
use teller.System.Growth.{update_status_failed}

module _ ⦃b : Bolt⦄ where
  abbrev pub HasDeposit : Db → Text → Type 0
  HasDeposit db k = is_some (view db.deposit_value k) ≡ true

  abbrev pub HasInfo : Db → Text → Type 0
  HasInfo db k = is_some (view db.deposit_info k) ≡ true

  pub record Grows (db db' : Db) : Type 0 where
    pub deposits : (k : Text) → HasDeposit db k → HasDeposit db' k
    pub infos : (k : Text) → HasInfo db k → HasInfo db' k

  pub Grows-refl : (db : Db) → Grows db db
  Grows-refl db = record { deposits = λ k h. h; infos = λ k h. h }

  pub scan_block-Grows :
      (block : CommonBlock) (c : Text) (db : Db) {dvs : List Deposit} {db' : Db}
      → scan_block block c db ≡ (ok dvs, db')
      → Grows db db'
  scan_block-Grows block c db {db' = db'} h =
      let all = scan_block-PushedAll block c db h in
      record {
        deposits = λ k e. elim (Option-cases (view db.deposit_value k)) [
          | inl gone ↦ absurd (ground arith)
          | inr (d, there) ↦ ground (arith, all.kept k d there)
        ];
        infos = λ k e. ap (λ (x : Db). is_some (view x.deposit_info k)) all.rest ∙ e;
      }

  pub set_deposit_processed-Grows :
      (k : Text) (db : Db) {u : Unit {0}} {db' : Db}
      → set_deposit_processed k db ≡ (ok u, db')
      → Grows db db'
  set_deposit_processed-Grows k db h =
      let m = set_deposit_processed-Marked k db h in
      record {
        deposits = λ j e. ground (arith, m.views j);
        infos = λ j e. ap (λ (x : Db). is_some (view x.deposit_info j)) m.rest ∙ e;
      }

  pub get_or_create-Grows :
      (now : ℕ) (dv : Deposit) (db : Db) (r : Result DepositInfo × Db)
      → get_or_create_deposit_info now dv db ≡ r
      → Grows db r.1
  get_or_create-Grows now dv db (err e, db') h =
      rw (get_or_create_failed now dv db h) (Grows-refl db)
  get_or_create-Grows now dv db (ok di, db') h =
      elim (Option-cases (view db.deposit_info (id dv))) [
        | inl absent ↦
            let c = get_or_create-Created now dv db absent h in
            record {
              deposits = λ j e. ap (λ (x : Db). is_some (view x.deposit_value j)) c.rest ∙ e;
              infos = λ j e. ground (arith, c.infos j);
            }
        | inr (old, known) ↦ rw (get_or_create_unchanged now dv db known h) (Grows-refl db)
      ]

  pub update_status-Grows :
      (now : ℕ) (di : DepositInfo) (db : Db) (r : Result DepositInfo × Db)
      → di.txid ≡ []
      → update_status now di db ≡ r
      → Grows db r.1
  update_status-Grows now di db (err e, db') blank h =
      rw (update_status_failed now di db h) (Grows-refl db)
  update_status-Grows now di db (ok x, db') blank h =
      let p = update_status-PartlyPaid now di db blank h in
      record {
        deposits = λ j e. ap (λ (y : Db). is_some (view y.deposit_value j)) p.rest ∙ e;
        infos = λ j e. ground (arith, p.infos j);
      }

  -- The buckets of the deposits and the index of the kitties are as they were.
  pub record SameDeposits (db db' : Db) : Type 0 where
    pub values : db'.deposit_value ≡ db.deposit_value
    pub infos : db'.deposit_info ≡ db.deposit_info
    pub seqs : db'.kitty_deposit_seqs ≡ db.kitty_deposit_seqs

  SameDeposits-refl : (db : Db) → SameDeposits db db
  SameDeposits-refl db = record { values = refl; infos = refl; seqs = refl }

  bind_address-SameDeposits :
      (kitty_id deposit_addr c : Text) (db : Db) (r : Result BoundAddress × Db)
      → bind_address kitty_id deposit_addr c db ≡ r
      → SameDeposits db r.1
  unfolding bind_address
  bind_address-SameDeposits kitty_id deposit_addr c db (ok bound, db') h =
      let (made, binds) = bind_address-Binds kitty_id deposit_addr c db h in
      record {
        values = ap (λ (x : Db). x.deposit_value) binds.rest;
        infos = ap (λ (x : Db). x.deposit_info) binds.rest;
        seqs = ap (λ (x : Db). x.kitty_deposit_seqs) binds.rest;
      }
  bind_address-SameDeposits kitty_id deposit_addr c db (err e, db') h =
      elim (Result-cases (get_bind_address_bkt c)) [
        | inl (x, bad) ↦ let same : db' ≡ db = ground arith in rw same (SameDeposits-refl db)
        | inr (bkt, name) ↦
            let same =
              update-err
                (bind_in bkt
                  (record { kitty_id = kitty_id; address = deposit_addr; coin_type = c }))
                db {e = e} {s' = db'} (ground arith) in
            rw same (SameDeposits-refl db)
      ]

  add_scan_address-SameDeposits :
      (addr c : Text) (db : Db) (r : Result (Unit {0}) × Db)
      → add_scan_address addr c db ≡ r
      → SameDeposits db r.1
  unfolding add_scan_address
  add_scan_address-SameDeposits addr c db (ok u, db') h =
      let w = add_scan_address-Watches addr c db h in
      record {
        values = ap (λ (x : Db). x.deposit_value) w.rest;
        infos = ap (λ (x : Db). x.deposit_info) w.rest;
        seqs = ap (λ (x : Db). x.kitty_deposit_seqs) w.rest;
      }
  add_scan_address-SameDeposits addr c db (err e, db') h =
      rw (update-err (add_scan_address_tx addr c) db h) (SameDeposits-refl db)

  SameDeposits-trans :
      (db db1 db2 : Db) → SameDeposits db db1 → SameDeposits db1 db2 → SameDeposits db db2
  SameDeposits-trans db db1 db2 one two = record {
    values = two.values ∙ one.values;
    infos = two.infos ∙ one.infos;
    seqs = two.seqs ∙ one.seqs;
  }

  pub receive_bind_address-SameDeposits :
      (coins : List Text) (kitty_id addr c : Text) (db : Db) {r : Result BoundAddress} {db' : Db}
      → receive_bind_address coins kitty_id addr c db ≡ (r, db')
      → SameDeposits db db'
  receive_bind_address-SameDeposits coins kitty_id addr c db {r} {db'} h =
      let bound = bind_address kitty_id addr c db in
      let one = bind_address-SameDeposits kitty_id addr c db bound refl in
      let two =
        add_scan_address-SameDeposits addr c bound.1 (add_scan_address addr c bound.1) refl in
      let last : (receive_bind_address coins kitty_id addr c db).1 ≡ db' =
        ap (λ (x : Result BoundAddress × Db). x.1) h in
      subst (SameDeposits db) last (elim (receive_bind_address_db coins kitty_id addr c db) [
        | inl same ↦ rw same (SameDeposits-refl db)
        | inr (inl same) ↦ rw same one
        | inr (inr same) ↦
            rw same (SameDeposits-trans db bound.1 (add_scan_address addr c bound.1).1 one two)
      ])

  pub same-IsSound : (db db' : Db) → SameDeposits db db' → IsSound db → IsSound db'
  same-IsSound db db' same inv =
      let value : (j : Text) → view db'.deposit_value j ≡ view db.deposit_value j =
        λ j. ap (λ t. view t j) same.values in
      let info : (j : Text) → view db'.deposit_info j ≡ view db.deposit_info j =
        λ j. ap (λ t. view t j) same.infos in
      record {
        keyed = λ j d e. inv.keyed j d (sym (value j) ∙ e);
        info_key = λ j x e. inv.info_key j x (sym (info j) ∙ e);
        no_txid = λ j x e. inv.no_txid j x (sym (info j) ∙ e);
        is_open = λ j x e. inv.is_open j x (sym (info j) ∙ e);
        seen = λ j e. ground (arith, value j, info j, inv.seen j);
        recorded = λ j d e st. ground (arith, inv.recorded j d (sym (value j) ∙ e) st, info j);
        no_seqs = λ j. ap (λ t. view t j) same.seqs ∙ inv.no_seqs j;
      }

  pub same-Grows : (db db' : Db) → SameDeposits db db' → Grows db db'
  same-Grows db db' same = record {
    deposits = λ j e. ap (λ t. is_some (view t j)) same.values ∙ e;
    infos = λ j e. ap (λ t. is_some (view t j)) same.infos ∙ e;
  }
