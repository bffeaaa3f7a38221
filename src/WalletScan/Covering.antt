-- ===== src/WalletScan/Covering.antt =====
-- That the heights of an address say truly what was scanned (updateAddressInfo of cmd/scan/scan.go).
use teller.Common.{
  zero, suc, ℕ, ◌+◌, ◌<◌, ◌≡◌, inl, inr, refl, sym, ◌∙◌, subst, arith, true, Bool-cases, not, ◌&&◌,
  List, [], ◌∷◌, ◌++◌, Text, text_eq, text_eq_iff, Result, Result-cases, ok, i64_half, All, All-map,
  All-append, Any, Any-append, Any-append_left, Any-append_right,
}
use teller.WalletScan.{
  Tx, Address, AddressDeposit, same_tx, any_tx, exist_tx, find_txs, update_address,
  update_address_info, add_btc_address, exist_address,
}
use teller.WalletScan.Heights.{IsOrdered, InRange, Extended, update_address-Extended}
use teller.WalletScan.Update.{update_at, scan_range}

abbrev pub IsTx : Tx → Tx → Type 0
IsTx tx t = t ≡ tx

abbrev pub HasTx : Tx → List Tx → Type 0
HasTx tx l = Any (IsTx tx) l

-- What the chain pays to an address in each block of its range is among its transactions.
abbrev pub Paid : Address → List Tx → AddressDeposit → Type 0
Paid a txs d = a.addr ≡ d.addr → HasTx d.tx txs

pub record IsComplete (chain : ℕ → List AddressDeposit) (a : Address) : Type 0 where
  pub ordered : IsOrdered a
  pub covered : (j : ℕ) → InRange a j → All (Paid a a.txs) (chain j)

same_tx_sound : (t u : Tx) → same_tx t u ≡ true → t ≡ u
unfolding same_tx
same_tx_sound t u h =
    let e1 = text_eq_iff t.tx_hash u.tx_hash in
    let e2 = text_eq_iff t.address u.address in
    let e3 = text_eq_iff t.block_hash u.block_hash in
    let e4 = text_eq_iff t.parent_hash u.parent_hash in
    let e5 = text_eq_iff t.bitcoin_amount u.bitcoin_amount in ground (arith, e1, e2, e3, e4, e5)

any_tx-HasTx : (tx : Tx) (l : List Tx) → any_tx tx l ≡ true → HasTx tx l
unfolding any_tx
any_tx-HasTx tx [] h = absurd (ground arith)
any_tx-HasTx tx (t ∷ l) h = elim (Bool-cases (same_tx t tx)) [
  | inl same ↦ inl (same_tx_sound t tx same)
  | inr other ↦ inr (any_tx-HasTx tx l (ground arith))
]

Any-cons : (l rest : List Tx) (new tx : Tx) → HasTx tx (l ++ rest) → HasTx tx (l ++ (new ∷ rest))
Any-cons l rest new tx h = elim (Any-append (IsTx tx) l rest h) [
  | inl before ↦ Any-append_left (IsTx tx) l (new ∷ rest) before
  | inr after ↦ Any-append_right (IsTx tx) l (new ∷ rest) (inr after)
]

find_txs-Paid :
    (a : Address) (deps : List AddressDeposit) → All (Paid a (a.txs ++ find_txs a deps)) deps
unfolding find_txs exist_tx
find_txs-Paid a [] = tt
find_txs-Paid a (d ∷ deps) =
    let rest = find_txs a deps in
    elim (Bool-cases (text_eq a.addr d.addr && not (any_tx d.tx a.txs))) [
      | inl new ↦
          let made : find_txs a (d ∷ deps) ≡ d.tx ∷ rest = ground arith in
          subst (λ l. All (Paid a (a.txs ++ l)) (d ∷ deps)) (sym made)
            (
              (λ same. Any-append_right (IsTx d.tx) a.txs (d.tx ∷ rest) (inl refl)),
              All-map deps (λ x h same. Any-cons a.txs rest d.tx x.tx (h same))
                  (find_txs-Paid a deps),
            )
      | inr old ↦
          let made : find_txs a (d ∷ deps) ≡ rest = ground arith in
          subst (λ l. All (Paid a (a.txs ++ l)) (d ∷ deps)) (sym made)
            (
              (λ same.
                  Any-append_left (IsTx d.tx) a.txs rest
                    (any_tx-HasTx d.tx a.txs (ground (arith, text_eq_iff a.addr d.addr)))),
              find_txs-Paid a deps,
            )
    ]

module _ (chain : ℕ → List AddressDeposit) (b : ℕ) where
  Extended-IsComplete :
      (a a' : Address) → IsComplete chain a → Extended (chain b) b a a' → IsComplete chain a'
  Extended-IsComplete a a' c e =
      let more = find_txs a (chain b) in
      let keep : (x : AddressDeposit) → Paid a a.txs x → Paid a' a'.txs x = λ x h same.
        subst (HasTx x.tx) (sym e.more_txs)
          (Any-append_left (IsTx x.tx) a.txs more (h (sym e.same_addr ∙ same))) in
      let fresh : (x : AddressDeposit) → Paid a (a.txs ++ more) x → Paid a' a'.txs x =
        λ x h same. subst (HasTx x.tx) (sym e.more_txs) (h (sym e.same_addr ∙ same)) in
      record {
        ordered = e.ordered;
        covered = λ j r. elim (e.by_one j r) [
          | inl old ↦ All-map (chain j) keep (c.covered j old)
          | inr this ↦ rw this (All-map (chain b) fresh (find_txs-Paid a (chain b)))
        ];
      }

  pub update_address-IsComplete :
      (a : Address)
      → b < i64_half
      → IsComplete chain a
      → IsComplete chain (update_address (chain b) b a)
  update_address-IsComplete a small c =
      elim (update_address-Extended (chain b) b a small c.ordered) [
        | inl same ↦ rw same c
        | inr e ↦ Extended-IsComplete a (update_address (chain b) b a) c e
      ]

  update_address_info-IsComplete :
      (addrs : List Address)
      → b < i64_half
      → All (IsComplete chain) addrs
      → All (IsComplete chain) (update_address_info addrs (chain b) b)
  unfolding update_address_info
  update_address_info-IsComplete [] small all = tt
  update_address_info-IsComplete (a ∷ addrs) small all =
      (update_address-IsComplete a small all.0, update_address_info-IsComplete addrs small all.1)

module _ (chain : ℕ → List AddressDeposit) (scan : ℕ → Result (List AddressDeposit)) where
  -- What the node answers is the chain.
  abbrev pub Reads : Type 0
  Reads = (j : ℕ) (ds : List AddressDeposit) → scan j ≡ ok ds → ds ≡ chain j

  update_at-IsComplete :
      (addrs : List Address) (b : ℕ) {addrs' : List Address}
      → Reads
      → b < i64_half
      → All (IsComplete chain) addrs
      → update_at scan addrs b ≡ ok addrs'
      → All (IsComplete chain) addrs'
  unfolding update_at
  update_at-IsComplete addrs b {addrs'} reads small all h = elim (Result-cases (scan b)) [
    | inl (e, bad) ↦ absurd (ground arith)
    | inr (ds, got) ↦
        let same = reads b ds got in
        let made : update_address_info addrs (chain b) b ≡ addrs' = ground arith in
        subst (All (IsComplete chain)) made (update_address_info-IsComplete chain b addrs small all)
  ]

  -- When the tool cmd/scan has scanned a range of blocks below 2^63 from a node that answers
  -- what the chain has, and at its start each address of the wallet had min <= mid <= max and
  -- all transactions that pay to it in the blocks from 1 to min and from mid to max, then so has
  -- each address afterwards, with its new heights.
  pub scan_range-IsComplete :
      (addrs : List Address) (i count : ℕ) {addrs' : List Address}
      → Reads
      → i + count < i64_half
      → All (IsComplete chain) addrs
      → scan_range scan i count addrs ≡ ok addrs'
      → All (IsComplete chain) addrs'
  unfolding scan_range
  scan_range-IsComplete addrs i zero {addrs'} reads small all h =
      let same : addrs ≡ addrs' = ground arith in subst (All (IsComplete chain)) same all
  scan_range-IsComplete addrs i (suc count) {addrs'} reads small all h =
      elim (Result-cases (update_at scan addrs i)) [
        | inl (e, bad) ↦ absurd (ground arith)
        | inr (next, got) ↦
            scan_range-IsComplete next (suc i) count reads (ground arith)
              (update_at-IsComplete addrs i reads (ground arith) all got) (ground arith)
      ]

-- An address that was added has no block behind it.
pub add_btc_address-IsComplete :
    (chain : ℕ → List AddressDeposit) (addr : Text) (addrs : List Address)
    → All (IsComplete chain) addrs
    → All (IsComplete chain) (add_btc_address addr addrs)
unfolding add_btc_address
add_btc_address-IsComplete chain addr addrs all =
    let new : Address = record {
      addr = addr;
      min_scan_block = 0;
      mid_scan_block = 0;
      max_scan_block = 0;
      txs = [];
    } in
    elim (Bool-cases (exist_address new addrs)) [
      | inl there ↦ rw (add_btc_address, there) all
      | inr fresh ↦
          rw (add_btc_address, fresh)
            (All-append (IsComplete chain) addrs (new ∷ []) all (
              record {
                ordered = record { low = ground arith; high = ground arith; small = ground arith };
                covered = λ j r. absurd (ground arith);
              },
              tt,
            ))
    ]
