-- ===== src/WalletScan/Heights.antt =====
-- The heights of an address of the wallet (updateAddressInfo of cmd/scan/scan.go).
use teller.Common.{
  ℕ, ◌≤◌, ◌<◌, ◌≡◌, ◌⊎◌, inl, inr, refl, arith, Bool-cases, List, ◌++◌, i64_half, ltb_i64, sub_i64,
  ◌&&◌, ◌==◌,
}
use teller.WalletScan.{Address, AddressDeposit, find_txs, update_address}

-- min ≤ mid ≤ max, and no height is negative.
pub record IsOrdered (a : Address) : Type 0 where
  pub low : a.min_scan_block ≤ a.mid_scan_block
  pub high : a.mid_scan_block ≤ a.max_scan_block
  pub small : a.max_scan_block < i64_half

-- A block that the heights of an address count as scanned.
abbrev pub InRange : Address → ℕ → Type 0
InRange a j = (1 ≤ j) × ((j ≤ a.min_scan_block) ⊎ ((a.mid_scan_block ≤ j) × (j ≤ a.max_scan_block)))

-- The block has been read for the address: the range has grown by this block at most.
pub record Extended (deps : List AddressDeposit) (block_id : ℕ) (a a' : Address) : Type 0 where
  pub same_addr : a'.addr ≡ a.addr
  pub more_txs : a'.txs ≡ a.txs ++ find_txs a deps
  pub by_one : (j : ℕ) → InRange a' j → InRange a j ⊎ (j ≡ block_id)
  pub ordered : IsOrdered a'

module _ (deps : List AddressDeposit) (b : ℕ) (a : Address) where
  abbrev before : ℕ
  before = sub_i64 b 1

  pub update_address-Extended :
      b < i64_half
      → IsOrdered a
      → (update_address deps b a ≡ a) ⊎ Extended deps b a (update_address deps b a)
  unfolding update_address
  update_address-Extended small o = elim (Bool-cases ((a.max_scan_block == 0) && ltb_i64 1 b)) [
    | inl first ↦
        rw (update_address, first)
          (inr (record {
            same_addr = refl;
            more_txs = refl;
            by_one = λ j h. ground (arith, o.low, o.high, o.small);
            ordered = record {
              low = ground (arith, o.low, o.high);
              high = ground arith;
              small = small;
            };
          }))
    | inr no1 ↦
        elim (Bool-cases
          (ltb_i64 a.min_scan_block a.max_scan_block && (a.min_scan_block == before))) [
            | inl chase ↦
                rw (update_address, no1, chase)
                  (inr (record {
                    same_addr = refl;
                    more_txs = refl;
                    by_one = λ j h. ground (arith, o.low, o.high, o.small);
                    ordered = record {
                      low = ground (arith, o.low, o.high);
                      high = ground (arith, o.low, o.high, o.small);
                      small = o.small;
                    };
                  }))
            | inr no2 ↦
                elim (Bool-cases
                  (ltb_i64 a.min_scan_block a.max_scan_block && (a.max_scan_block == before))) [
                    | inl grow ↦
                        rw (update_address, no1, no2, grow)
                          (inr (record {
                            same_addr = refl;
                            more_txs = refl;
                            by_one = λ j h. ground (arith, o.low, o.high, o.small);
                            ordered = record {
                              low = o.low;
                              high = ground (arith, o.low, o.high, o.small);
                              small = small;
                            };
                          }))
                    | inr no3 ↦
                        elim (Bool-cases (
                          (a.min_scan_block == a.mid_scan_block)
                          && (a.min_scan_block == a.max_scan_block)
                          && (a.max_scan_block == before))) [
                            | inl all ↦
                                rw (update_address, no1, no2, no3, all)
                                  (inr (record {
                                    same_addr = refl;
                                    more_txs = refl;
                                    by_one = λ j h. ground (arith, o.low, o.high, o.small);
                                    ordered = record {
                                      low = ground arith;
                                      high = ground arith;
                                      small = small;
                                    };
                                  }))
                            | inr no4 ↦ rw (update_address, no1, no2, no3, no4) (inl refl)
                          ]
                  ]
          ]
  ]
