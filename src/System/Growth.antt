-- ===== src/System/Growth.antt =====
-- The transactions of the exchange and of the binding, on a sound database.
use teller.Common.{
  ℕ, ◌≡◌, inl, inr, sym, ap, ◌∙◌, arith, true, Option-cases, is_some, [], Text, text_eq_iff, Result,
  ok, err, Error,
}
use teller.Bolt.{Bolt}
use teller.Dbutil.{view}
use teller.Db.{Db}
use teller.Db.Laws.{update-err}
use teller.Scanner.Types.{Deposit, id}
use teller.Exchange.Types.{DepositInfo, wait_decide}
use teller.Exchange.Store.{
  get_or_create_deposit_info, update_deposit_info_tx, update_deposit_info_callback,
}
use teller.Exchange.Store.Recording.{Created, get_or_create-Created}
use teller.Exchange.Receive.Rounds.{get_or_create_unchanged, get_or_create_failed}
use teller.Exchange.Buy.{partial, pay, update_status}
use teller.Exchange.Buy.Payment.{PartlyPaid, update_status-PartlyPaid}
use teller.System.Database.{IsSound}

module _ ⦃b : Bolt⦄ where
  Created-IsSound :
      (now : ℕ) (dv : Deposit) (db : Db) {di : DepositInfo} {db' : Db}
      → IsSound db
      → is_some (view db.deposit_value (id dv)) ≡ true
      → Created now dv db di db'
      → IsSound db'
  Created-IsSound now dv db {di} {db'} inv there c =
      let value : (j : Text) → view db'.deposit_value j ≡ view db.deposit_value j =
        λ j. ap (λ (x : Db). view x.deposit_value j) c.rest in
      let seqs : (j : Text) → view db'.kitty_deposit_seqs j ≡ view db.kitty_deposit_seqs j =
        λ j. ap (λ (x : Db). view x.kitty_deposit_seqs j) c.rest in
      let info_id : di.deposit_id ≡ id dv = ap (λ (x : DepositInfo). x.deposit_id) c.result in
      let info_txid : di.txid ≡ [] = ap (λ (x : DepositInfo). x.txid) c.result in
      let info_status : di.status ≡ wait_decide = ap (λ (x : DepositInfo). x.status) c.result in
      record {
        keyed = λ j d e. inv.keyed j d (sym (value j) ∙ e);
        info_key =
            λ j x e. ground (arith, c.infos j, text_eq_iff (id dv) j, inv.info_key j x, info_id);
        no_txid = λ j x e. ground (arith, c.infos j, inv.no_txid j x, info_txid);
        is_open = λ j x e. ground (arith, c.infos j, inv.is_open j x, info_status);
        seen = λ j e. ground (arith, c.infos j, text_eq_iff (id dv) j, inv.seen j, value j, there);
        recorded = λ j d e st. ground (arith, c.infos j, inv.recorded j d, value j);
        no_seqs = λ j. seqs j ∙ inv.no_seqs j;
      }

  pub get_or_create-IsSound :
      (now : ℕ) (dv : Deposit) (db : Db) (r : Result DepositInfo × Db)
      → IsSound db
      → is_some (view db.deposit_value (id dv)) ≡ true
      → get_or_create_deposit_info now dv db ≡ r
      → IsSound r.1
  get_or_create-IsSound now dv db (err e, db') inv there h =
      rw (get_or_create_failed now dv db h) inv
  get_or_create-IsSound now dv db (ok di, db') inv there h =
      elim (Option-cases (view db.deposit_info (id dv))) [
        | inl absent ↦
            Created-IsSound now dv db inv there (get_or_create-Created now dv db absent h)
        | inr (old, known) ↦ rw (get_or_create_unchanged now dv db known h) inv
      ]

  paid-IsSound :
      (now : ℕ) (di : DepositInfo) (db : Db) {r : DepositInfo} {db' : Db}
      → IsSound db
      → PartlyPaid now di db r db'
      → IsSound db'
  paid-IsSound now di db {r} {db'} inv p =
      let value : (j : Text) → view db'.deposit_value j ≡ view db.deposit_value j =
        λ j. ap (λ (x : Db). view x.deposit_value j) p.rest in
      let seqs : (j : Text) → view db'.kitty_deposit_seqs j ≡ view db.kitty_deposit_seqs j =
        λ j. ap (λ (x : Db). view x.kitty_deposit_seqs j) p.rest in
      let old_key = inv.info_key di.deposit_id p.stored p.was_stored in
      let old_txid = inv.no_txid di.deposit_id p.stored p.was_stored in
      record {
        keyed = λ j d e. inv.keyed j d (sym (value j) ∙ e);
        info_key = λ j x e.
            ground
              (arith, p.infos j, p.result, text_eq_iff di.deposit_id j, inv.info_key j x, old_key);
        no_txid = λ j x e. ground (arith, p.infos j, p.result, inv.no_txid j x, old_txid);
        is_open = λ j x e. ground (arith, p.infos j, p.result, inv.is_open j x);
        seen = λ j e.
            ground
              (arith, p.infos j, text_eq_iff di.deposit_id j, inv.seen j, value j, p.was_stored);
        recorded = λ j d e st. ground (arith, p.infos j, inv.recorded j d, value j);
        no_seqs = λ j. seqs j ∙ inv.no_seqs j;
      }

  pub update_status_failed :
      (now : ℕ) (di : DepositInfo) (db : Db) {e : Error} {db' : Db}
      → update_status now di db ≡ (err e, db')
      → db' ≡ db
  unfolding update_status update_deposit_info_callback
  update_status_failed now di db h =
      update-err (update_deposit_info_tx now di.deposit_id partial (λ _. pay di)) db h

  pub update_status-IsSound :
      (now : ℕ) (di : DepositInfo) (db : Db) (r : Result DepositInfo × Db)
      → IsSound db
      → di.txid ≡ []
      → update_status now di db ≡ r
      → IsSound r.1
  update_status-IsSound now di db (err e, db') inv blank h =
      rw (update_status_failed now di db h) inv
  update_status-IsSound now di db (ok x, db') inv blank h =
      paid-IsSound now di db inv (update_status-PartlyPaid now di db blank h)
