-- ===== src/System/Database.antt =====
-- What the transactions of the service keep true of the database.
use teller.Common.{
  ◌≡◌, ◌⊎◌, inl, inr, refl, sym, ap, ◌∙◌, arith, true, none, some, Option-cases, is_some, List, [],
  Text, text_eq_iff, ok,
}
use teller.Bolt.{Bolt}
use teller.Dbutil.{view}
use teller.Db.{Db}
use teller.Scanner.Types.{Deposit, id, CommonBlock, accepted}
use teller.Scanner.Store.{scan_block, set_deposit_processed}
use teller.Scanner.Store.Rescan.{scan_block-PushedAll}
use teller.Scanner.Store.Origin.{scan_block-origin}
use teller.Scanner.Store.Processed.{set_deposit_processed-Marked}
use teller.Exchange.Types.{Status, DepositInfo, wait_decide, wait_partial}

-- The only statuses that a stored DepositInfo has.
abbrev pub IsOpen : Status → Type 0
IsOpen s = (s ≡ wait_decide) ⊎ (s ≡ wait_partial)

module _ ⦃b : Bolt⦄ where
  -- Deposits and DepositInfos stand under their IDs; each DepositInfo has its deposit, no Txid, and an
  -- open status; a deposit that is marked as processed has its DepositInfo; and nothing was ever
  -- written to the index of the kitties.
  pub record IsSound (db : Db) : Type 0 where
    pub keyed : (k : Text) (d : Deposit) → view db.deposit_value k ≡ some d → id d ≡ k
    pub info_key :
        (k : Text) (di : DepositInfo) → view db.deposit_info k ≡ some di → di.deposit_id ≡ k
    pub no_txid : (k : Text) (di : DepositInfo) → view db.deposit_info k ≡ some di → di.txid ≡ []
    pub is_open :
        (k : Text) (di : DepositInfo) → view db.deposit_info k ≡ some di → IsOpen di.status
    pub seen :
        (k : Text)
        → is_some (view db.deposit_info k) ≡ true
        → is_some (view db.deposit_value k) ≡ true
    pub recorded :
        (k : Text) (d : Deposit)
        → view db.deposit_value k ≡ some d
        → d.status ≡ accepted
        → is_some (view db.deposit_info k) ≡ true
    pub no_seqs : (k : Text) → view db.kitty_deposit_seqs k ≡ none

  pub scan_block-IsSound :
      (block : CommonBlock) (c : Text) (db : Db) {dvs : List Deposit} {db' : Db}
      → IsSound db
      → scan_block block c db ≡ (ok dvs, db')
      → IsSound db'
  scan_block-IsSound block c db {db' = db'} inv h =
      let all = scan_block-PushedAll block c db h in
      let same_info : db'.deposit_info ≡ db.deposit_info =
        ap (λ (x : Db). x.deposit_info) all.rest in
      let same_seqs : db'.kitty_deposit_seqs ≡ db.kitty_deposit_seqs =
        ap (λ (x : Db). x.kitty_deposit_seqs) all.rest in
      let info : (k : Text) → view db'.deposit_info k ≡ view db.deposit_info k =
        λ k. ap (λ t. view t k) same_info in
      record {
        keyed = λ k d e. elim (scan_block-origin block c db k d h e) [
          | inl old ↦ inv.keyed k d old
          | inr new ↦ new.0
        ];
        info_key = λ k di e. inv.info_key k di (sym (info k) ∙ e);
        no_txid = λ k di e. inv.no_txid k di (sym (info k) ∙ e);
        is_open = λ k di e. inv.is_open k di (sym (info k) ∙ e);
        seen = λ k e. elim (Option-cases (view db.deposit_value k)) [
          | inl gone ↦ absurd (ground (arith, info k, inv.seen k))
          | inr (d, there) ↦ ground (arith, all.kept k d there)
        ];
        recorded = λ k d e st. elim (scan_block-origin block c db k d h e) [
          | inl old ↦ ground (arith, inv.recorded k d old st, info k)
          | inr new ↦ absurd (ground (arith, new.1))
        ];
        no_seqs = λ k. ap (λ t. view t k) same_seqs ∙ inv.no_seqs k;
      }

  pub set_deposit_processed-IsSound :
      (k : Text) (db : Db) {u : Unit {0}} {db' : Db}
      → IsSound db
      → is_some (view db.deposit_info k) ≡ true
      → set_deposit_processed k db ≡ (ok u, db')
      → IsSound db'
  set_deposit_processed-IsSound k db {db' = db'} inv there h =
      let m = set_deposit_processed-Marked k db h in
      let same_info : db'.deposit_info ≡ db.deposit_info = ap (λ (x : Db). x.deposit_info) m.rest in
      let same_seqs : db'.kitty_deposit_seqs ≡ db.kitty_deposit_seqs =
        ap (λ (x : Db). x.kitty_deposit_seqs) m.rest in
      let info : (j : Text) → view db'.deposit_info j ≡ view db.deposit_info j =
        λ j. ap (λ t. view t j) same_info in
      let id_marked : id (record m.before { status = accepted }) ≡ id m.before =
        unfold id in refl in
      record {
        keyed =
            λ j d e. ground (arith, m.views j, text_eq_iff k j, inv.keyed j d, m.keyed, id_marked);
        info_key = λ j di e. inv.info_key j di (sym (info j) ∙ e);
        no_txid = λ j di e. inv.no_txid j di (sym (info j) ∙ e);
        is_open = λ j di e. inv.is_open j di (sym (info j) ∙ e);
        seen = λ j e. ground (arith, m.views j, info j, inv.seen j);
        recorded =
            λ j d e st. ground (arith, m.views j, text_eq_iff k j, inv.recorded j d, info j, there);
        no_seqs = λ j. ap (λ t. view t j) same_seqs ∙ inv.no_seqs j;
      }
