-- ===== src/Scanner/Blocks/Numbering.antt =====
-- The numbers of the outputs in a converted block (src/scanner/btc.go), and what they do to the IDs
-- of deposits.
use teller.Common.{
  ℕ, ◌≡◌, ap, sym, ◌∙◌, arith, true, Option, none, some, List, [], ◌∷◌, Text, ok, Result-cases, inl,
  inr, All, Any, Any-All, is_some, Option-cases,
}
use teller.Bolt.{Bolt}
use teller.Dbutil.{view}
use teller.Db.{Db}
use teller.Scanner.Types.{Deposit, id, CommonVout, CommonTx, CommonBlock}
use teller.Scanner.Store.{scan_specified_block, scan_block}
use teller.Scanner.Store.Scanning.{PaidIn, scan_specified_block_iff}
use teller.Scanner.Store.Addresses.{watched}
use teller.Scanner.Store.Rescan.{scan_block-PushedAll}
use teller.Scanner.Blocks.{
  BtcVout, BtcTx, BtcBlock, vout_of, btc_vouts, btc_txs, btc_block_to_common,
}

-- No output of the transactions has another number than 0.
abbrev pub Unnumbered : List CommonTx → Type 0
Unnumbered l = All (λ (t : CommonTx). All (λ (v : CommonVout). v.n ≡ 0) t.vout) l

vout_of_zero : (o : Option ℕ) (as' : List Text) {v : CommonVout} → vout_of o as' ≡ ok v → v.n ≡ 0
vout_of_zero none as' h = cc
vout_of_zero (some amt) as' h = ground arith

module _ {F : Type 0} (new_amount : F → Option ℕ) where
  btc_vouts_zero :
      (l : List (BtcVout F)) {cvs : List CommonVout}
      → btc_vouts new_amount l ≡ ok cvs
      → All (λ (v : CommonVout). v.n ≡ 0) cvs
  unfolding btc_vouts
  btc_vouts_zero [] {cvs} h =
      let same : ◌≡◌ {A = List CommonVout} [] cvs = ground arith in rw (← same) tt
  btc_vouts_zero (v ∷ l) {cvs} h = elim (Result-cases (vout_of (new_amount v.value) v.addresses)) [
    | inl (e, bad) ↦ absurd (ground arith)
    | inr (cv, good) ↦ elim (Result-cases (btc_vouts new_amount l)) [
      | inl (e, bad) ↦ absurd (ground arith)
      | inr (rest, more) ↦
          let same : cv ∷ rest ≡ cvs = ground arith in
          rw (← same) ((vout_of_zero (new_amount v.value) v.addresses good, btc_vouts_zero l more))
    ]
  ]

  btc_txs_zero :
      (l : List (BtcTx F)) {cts : List CommonTx} → btc_txs new_amount l ≡ ok cts → Unnumbered cts
  unfolding btc_txs
  btc_txs_zero [] {cts} h =
      let same : ◌≡◌ {A = List CommonTx} [] cts = ground arith in rw (← same) tt
  btc_txs_zero (t ∷ l) {cts} h = elim (Result-cases (btc_vouts new_amount t.vout)) [
    | inl (e, bad) ↦ absurd (ground arith)
    | inr (vouts, good) ↦ elim (Result-cases (btc_txs new_amount l)) [
      | inl (e, bad) ↦ absurd (ground arith)
      | inr (rest, more) ↦
          let same : (record { txid = t.txid; vout = vouts }) ∷ rest ≡ cts = ground arith in
          rw (← same) ((btc_vouts_zero t.vout good, btc_txs_zero l more))
    ]
  ]

  btc_block_zero :
      (block : BtcBlock F) {cb : CommonBlock}
      → btc_block_to_common new_amount block ≡ ok cb
      → Unnumbered cb.raw_tx
  unfolding btc_block_to_common
  btc_block_zero block {cb} h = elim (Result-cases (btc_txs new_amount block.raw_tx)) [
    | inl (e, bad) ↦ absurd (ground arith)
    | inr (cts, good) ↦
        let same : cts ≡ cb.raw_tx = ground arith in rw (← same) (btc_txs_zero block.raw_tx good)
  ]

PaidIn-zero :
    (d : Deposit) (block : CommonBlock) (coin_type : Text) (watched : List Text)
    → Unnumbered block.raw_tx
    → PaidIn d block coin_type watched
    → d.n ≡ 0
PaidIn-zero d block coin_type watched zero paid =
    Any-All block.raw_tx
      (λ t in_t zero_t.
        Any-All t.vout
          (λ v in_v zero_v.
            Any-All v.addresses (λ a hit u. sym (ap (λ (x : Deposit). x.n) hit.1) ∙ zero_v) in_v
              (all_unit v.addresses))
          in_t zero_t)
      paid zero
  where
    all_unit : (l : List Text) → All (λ (a : Text). Unit {0}) l
    all_unit [] = tt
    all_unit (a ∷ l) = (tt, all_unit l)

same_tx-id :
    (d e : Deposit) (block : CommonBlock) (coin_type : Text) (watched : List Text)
    → Unnumbered block.raw_tx
    → PaidIn d block coin_type watched
    → PaidIn e block coin_type watched
    → d.tx ≡ e.tx
    → id d ≡ id e
unfolding id
same_tx-id d e block coin_type watched zero pd pe same =
    let zd = PaidIn-zero d block coin_type watched zero pd in
    let ze = PaidIn-zero e block coin_type watched zero pe in ground arith

module _ ⦃b : Bolt⦄ where
  found_stored :
      (dvs : List Deposit) (db' : Db) (d : Deposit)
      → Any (λ (x : Deposit). x ≡ d) dvs
      → All (λ (x : Deposit). is_some (view db'.deposit_value (id x)) ≡ true) dvs
      → (s : Deposit) × (view db'.deposit_value (id d) ≡ some s)
  found_stored dvs db' d here stored =
      Any-All dvs
        (λ x same there. elim (Option-cases (view db'.deposit_value (id x))) [
          | inl gone ↦ absurd (ground arith)
          | inr (s, e) ↦ (s, ap (λ y. view db'.deposit_value (id y)) (sym same) ∙ e)
        ])
        here stored

  -- Of the deposits that the scan of a converted block of the btc node finds with the same
  -- transaction hash, any two have one and the same stored deposit under their IDs when
  -- ScanBlock has succeeded, whatever their amounts and addresses are.
  pub one_deposit_per_tx :
      {F : Type 0} (new_amount : F → Option ℕ) (btc : BtcBlock F) (block : CommonBlock)
      (coin_type : Text) (db : Db) (d e : Deposit) {dvs : List Deposit} {db' : Db}
      → btc_block_to_common new_amount btc ≡ ok block
      → scan_block block coin_type db ≡ (ok dvs, db')
      → Any (λ (x : Deposit). x ≡ d) (scan_specified_block block coin_type (watched coin_type db))
      → Any (λ (x : Deposit). x ≡ e) (scan_specified_block block coin_type (watched coin_type db))
      → d.tx ≡ e.tx
      → (s : Deposit) × (view db'.deposit_value (id d) ≡ some s)
        × (view db'.deposit_value (id e) ≡ some s)
  one_deposit_per_tx new_amount btc block coin_type db d e {db' = db'} conv scanned in_d in_e same =
      let found = scan_specified_block block coin_type (watched coin_type db) in
      let all = scan_block-PushedAll block coin_type db scanned in
      let (s, at_d) = found_stored found db' d in_d all.stored in
      let one =
        same_tx-id d e block coin_type (watched coin_type db) (btc_block_zero new_amount btc conv)
          ((scan_specified_block_iff block coin_type (watched coin_type db) d).0 in_d)
          ((scan_specified_block_iff block coin_type (watched coin_type db) e).0 in_e) same in
      (s, at_d, ap (view db'.deposit_value) (sym one) ∙ at_d)
