-- ===== src/Tests/Wallets.antt =====
-- A wallet that is scanned over three blocks, and a confirmation that fails twice.
use teller.Common.{
  zero, suc, ℕ, ◌≡◌, ◌↔◌, refl, arith, true, false, some, List, [], ◌∷◌, Text, text_eq, Result, ok,
  err, service_failed, is_empty, All,
}
use teller.WalletScan.{
  Tx, Address, AddressDeposit, same_tx, any_tx, exist_tx, find_txs, update_address,
  update_address_info,
}
use teller.WalletScan.Update.{update_at, scan_range}
use teller.WalletScan.Covering.{IsComplete, Reads, scan_range-IsComplete}
use teller.Sender.{Attempt, confirmed_response, is_tx_confirmed}
use teller.Sender.Retrying.{Answered, is_tx_confirmed_iff}

abbrev addr : Text
addr = 65 ∷ []

abbrev paid_tx : Tx
paid_tx = record {
  tx_hash = 116 ∷ [];
  address = addr;
  block_hash = 2 ∷ [];
  parent_hash = 1 ∷ [];
  block_height = 2;
  satoshi_amount = 5;
  bitcoin_amount = 53 ∷ [];
}

-- The second block pays to the address.
abbrev chain : ℕ → List AddressDeposit
chain zero = []
chain (suc zero) = []
chain (suc (suc zero)) = record { addr = addr; tx = paid_tx } ∷ []
chain (suc (suc (suc n))) = []

abbrev node : ℕ → Result (List AddressDeposit)
node j = ok (chain j)

abbrev new_address : Address
new_address = record {
  addr = addr;
  min_scan_block = 0;
  mid_scan_block = 0;
  max_scan_block = 0;
  txs = [];
}

abbrev scanned_address : Address
scanned_address = record {
  addr = addr;
  min_scan_block = 3;
  mid_scan_block = 3;
  max_scan_block = 3;
  txs = paid_tx ∷ [];
}

new_address-IsComplete : IsComplete chain new_address
new_address-IsComplete = record {
  ordered = record { low = ground arith; high = ground arith; small = ground arith };
  covered = λ j r. absurd (ground arith);
}

reads : Reads chain node
reads j ds h = ground arith

scanning : scan_range node 1 3 (new_address ∷ []) ≡ ok (scanned_address ∷ [])
unfolding scan_range update_at update_address_info update_address find_txs exist_tx any_tx same_tx
    text_eq
scanning = refl

scan_range-IsComplete_example : All (IsComplete chain) (scanned_address ∷ [])
scan_range-IsComplete_example =
    scan_range-IsComplete chain node (new_address ∷ []) 1 3 reads (ground arith)
      ((new_address-IsComplete, tt)) scanning

abbrev failing : Attempt (Unit {0})
failing = record { answer = err service_failed; quit = false }

abbrev answering : Attempt (Unit {0})
answering = record { answer = ok tt; quit = false }

is_tx_confirmed_iff_example :
    (is_tx_confirmed (λ t. true) addr (failing ∷ failing ∷ answering ∷ [])
      ≡ some (some confirmed_response))
    ↔ ((is_empty addr ≡ false) × (true ≡ true) × Answered (failing ∷ failing ∷ answering ∷ []))
is_tx_confirmed_iff_example =
    is_tx_confirmed_iff (λ t. true) addr (failing ∷ failing ∷ answering ∷ [])
