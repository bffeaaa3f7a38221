-- ===== src/WalletScan.antt =====
-- cmd/scan/scan.go: a wallet of addresses that an operator scans block by block. An address keeps the
-- block up to which it was scanned from the start (min), and the range from mid to max.
pub mod Covering
pub mod Heights
pub mod Update
use teller.Common.{
  ℕ, suc, ◌+◌, ◌-◌, ◌%◌, ◌==◌, ◌&&◌, ◌||◌, not, Bool, true, false, Option, none, some, List, [],
  ◌∷◌, ◌++◌, Text, text_eq, decimal, Result, ok, err, Error, ◌>>=◌, service_failed, u64_mod,
  sub_i64, ltb_i64, if◌then◌else◌,
}

pub record Tx : Type 0 where
  pub tx_hash : Text
  pub address : Text
  pub block_hash : Text
  pub parent_hash : Text
  pub block_height : ℕ  -- int64
  pub satoshi_amount : ℕ  -- int64
  pub bitcoin_amount : Text

pub record Address : Type 0 where
  pub addr : Text
  pub min_scan_block : ℕ  -- int64
  pub mid_scan_block : ℕ  -- int64
  pub max_scan_block : ℕ  -- int64
  pub txs : List Tx

pub record AddressDeposit : Type 0 where
  pub addr : Text
  pub tx : Tx

-- `t == tx` on the structs
unfoldable pub same_tx : Tx → Tx → Bool
same_tx t u =
    text_eq t.tx_hash u.tx_hash
    && text_eq t.address u.address
    && text_eq t.block_hash u.block_hash
    && text_eq t.parent_hash u.parent_hash
    && (t.block_height == u.block_height)
    && (t.satoshi_amount == u.satoshi_amount)
    && text_eq t.bitcoin_amount u.bitcoin_amount

unfoldable pub any_tx : Tx → List Tx → Bool
unfolding same_tx
any_tx tx [] = false
any_tx tx (t ∷ ts) = same_tx t tx || any_tx tx ts

unfoldable pub exist_tx : Address → Tx → Bool
unfolding any_tx
exist_tx addr tx = any_tx tx addr.txs

unfoldable pub find_txs : Address → List AddressDeposit → List Tx
unfolding exist_tx
find_txs addr [] = []
find_txs addr (dep ∷ deps) =
    let rest = find_txs addr deps in
    if text_eq addr.addr dep.addr && not (exist_tx addr dep.tx) then dep.tx ∷ rest else rest

unfoldable pub exist_address : Address → List Address → Bool
exist_address new_addr [] = false
exist_address new_addr (a ∷ l) = text_eq new_addr.addr a.addr || exist_address new_addr l

-- addBTCAddress between the loading and the saving of the file
unfoldable pub add_btc_address : Text → List Address → List Address
unfolding exist_address
add_btc_address addr addrs =
    let new_addr : Address = record {
      addr = addr;
      min_scan_block = 0;
      mid_scan_block = 0;
      max_scan_block = 0;
      txs = [];
    } in
    if exist_address new_addr addrs then addrs else addrs ++ (new_addr ∷ [])

-- The body of updateAddressInfo.
unfoldable pub update_address : List AddressDeposit → ℕ → Address → Address
unfolding find_txs
update_address deps block_id addr =
    let txs = addr.txs ++ find_txs addr deps in
    if (addr.max_scan_block == 0) && ltb_i64 1 block_id
    then record addr { txs = txs; max_scan_block = block_id; mid_scan_block = block_id }
    else if ltb_i64 addr.min_scan_block addr.max_scan_block
        && (addr.min_scan_block == sub_i64 block_id 1)
    then record addr {
      txs = txs;
      min_scan_block = block_id;
      mid_scan_block =
          if ltb_i64 addr.mid_scan_block block_id then block_id else addr.mid_scan_block;
    }
    else if ltb_i64 addr.min_scan_block addr.max_scan_block
        && (addr.max_scan_block == sub_i64 block_id 1)
    then record addr { txs = txs; max_scan_block = block_id }
    else if (addr.min_scan_block == addr.mid_scan_block)
        && (addr.min_scan_block == addr.max_scan_block)
        && (addr.max_scan_block == sub_i64 block_id 1)
    then record addr {
      txs = txs;
      max_scan_block = block_id;
      mid_scan_block = block_id;
      min_scan_block = block_id;
    }
    else addr

unfoldable pub update_address_info : List Address → List AddressDeposit → ℕ → List Address
unfolding update_address
update_address_info [] deps block_id = []
update_address_info (a ∷ addrs) deps block_id =
    update_address deps block_id a ∷ update_address_info addrs deps block_id
