-- ===== src/Scanner/Store/Scanning.antt =====
-- What a scan of a block finds (scanSpecifiedBlock, src/scanner/store.go).
use teller.Common.{
  ℕ, ◌≡◌, ◌↔◌, refl, arith, Bool, true, false, [], ◌∷◌, ◌++◌, List, Text, inl, inr, ◌⊎◌,
  if◌then◌else◌, Any, Any-append, Any-append_left, Any-append_right,
}
use teller.Scanner.Types.{Deposit, not_processed, CommonVout, CommonTx, CommonBlock}
use teller.Scanner.Store.{listed, scan_addresses, scan_vouts, scan_txs, scan_specified_block}

-- What an output to an address is recorded as.
abbrev pub deposit_of : Text → ℕ → Text → CommonVout → Text → Deposit
deposit_of coin_type height txid v a = record {
  coin_type = coin_type;
  address = a;
  value = v.value;
  height = height;
  tx = txid;
  n = v.n;
  status = not_processed;
}

-- The deposit is of an output of the block that pays to a watched address.
abbrev pub PaidIn : Deposit → CommonBlock → Text → List Text → Type 0
PaidIn dv block coin_type watched =
    Any
      (λ (t : CommonTx).
        Any
          (λ (v : CommonVout).
            Any
              (λ (a : Text).
                (listed a watched ≡ true) × (deposit_of coin_type block.height t.txid v a ≡ dv))
              v.addresses)
          t.vout)
      block.raw_tx

module _ (coin_type : Text) (height : ℕ) (watched : List Text) (dv : Deposit) where
  abbrev Hit : Text → CommonVout → Text → Type 0
  Hit txid v a = (listed a watched ≡ true) × (deposit_of coin_type height txid v a ≡ dv)

  abbrev Here : Deposit → Type 0
  Here d = d ≡ dv

  -- One more result of a loop, under its test.
  cons_iff :
      {Q : Type 0} (t : Bool) (d : Deposit) (r : List Deposit)
      → Any Here r ↔ Q
      → Any Here (if t then d ∷ r else r) ↔ (((t ≡ true) × (d ≡ dv)) ⊎ Q)
  cons_iff true d r ih = (
    elim [ inl p ↦ inl (refl, p) | inr q ↦ inr (ih.0 q) ],
    elim [ inl p ↦ inl p.1 | inr q ↦ inr (ih.1 q) ],
  )
  cons_iff false d r ih =
      (λ q. inr (ih.0 q), elim [ inl p ↦ absurd (ground arith) | inr q ↦ ih.1 q ])

  append_iff :
      {P Q : Type 0} (xs ys : List Deposit)
      → Any Here xs ↔ P
      → Any Here ys ↔ Q
      → Any Here (xs ++ ys) ↔ (P ⊎ Q)
  append_iff {P} {Q} xs ys l r = (
    λ h. elim (Any-append Here xs ys h) [ inl p ↦ inl (l.0 p) | inr q ↦ inr (r.0 q) ],
    elim [
      | inl p ↦ Any-append_left Here xs ys (l.1 p)
      | inr q ↦ Any-append_right Here xs ys (r.1 q)
    ],
  )

  addresses_iff :
      (txid : Text) (v : CommonVout) (l : List Text)
      → Any Here (scan_addresses coin_type height txid v watched l) ↔ Any (Hit txid v) l
  unfolding scan_addresses
  addresses_iff txid v [] = (λ h. h, λ h. h)
  addresses_iff txid v (a ∷ l) =
      cons_iff (listed a watched) (deposit_of coin_type height txid v a)
        (scan_addresses coin_type height txid v watched l) (addresses_iff txid v l)

  vouts_iff :
      (txid : Text) (l : List CommonVout)
      → Any Here (scan_vouts coin_type height txid watched l)
        ↔ Any (λ (v : CommonVout). Any (Hit txid v) v.addresses) l
  unfolding scan_vouts
  vouts_iff txid [] = (λ h. h, λ h. h)
  vouts_iff txid (v ∷ l) =
      append_iff (scan_addresses coin_type height txid v watched v.addresses)
        (scan_vouts coin_type height txid watched l) (addresses_iff txid v v.addresses)
        (vouts_iff txid l)

  txs_iff :
      (l : List CommonTx)
      → Any Here (scan_txs coin_type height watched l)
        ↔ Any (λ (t : CommonTx). Any (λ (v : CommonVout). Any (Hit t.txid v) v.addresses) t.vout) l
  unfolding scan_txs
  txs_iff [] = (λ h. h, λ h. h)
  txs_iff (t ∷ l) =
      append_iff (scan_vouts coin_type height t.txid watched t.vout)
        (scan_txs coin_type height watched l) (vouts_iff t.txid t.vout) (txs_iff l)

-- A deposit is among those that scanSpecifiedBlock returns exactly when an output of a
-- transaction of the block pays to a watched address and the deposit is the record of that
-- payment.
pub scan_specified_block_iff :
    (block : CommonBlock) (coin_type : Text) (watched : List Text) (dv : Deposit)
    → Any (λ (d : Deposit). d ≡ dv) (scan_specified_block block coin_type watched)
      ↔ PaidIn dv block coin_type watched
unfolding scan_specified_block
scan_specified_block_iff block coin_type watched dv =
    txs_iff coin_type block.height watched dv block.raw_tx
