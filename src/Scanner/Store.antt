-- ===== src/Scanner/Store.antt =====
-- src/scanner/store.go: the addresses that are watched, and the deposits that were found.
pub mod Scanning
pub mod Addresses
pub mod Rescan
pub mod Unprocessed
pub mod Processed
pub mod Origin
use teller.Common.{
  ℕ, Bool, true, false, not, Option, none, some, List, [], ◌∷◌, ◌++◌, Text, text_eq, codes, Result,
  ok, err, Error, if◌then◌else◌, duplicate_deposit_address, deposit_key_mismatch, deposit_exists,
}
use teller.Common.Txs.{Tx, pure, throw, lift, guard, ◌>>=◌, ◌>>◌}
use teller.Bolt.{Bolt}
use teller.Db.{Db}
use teller.Db.Access.{
  get_object, find_object, put_object, has_key, create_bucket, for_each_object, update, read_only,
}
use teller.Db.Buckets.{deposit_bkt, get_scan_meta_bkt}
use teller.Scanner.Types.{
  Deposit, DepositStatus, unset, not_processed, rejected, accepted, id, CommonVout, CommonTx,
  CommonBlock,
}

abbrev pub deposit_addresses_key : Text
deposit_addresses_key = codes "deposit_addresses"

-- `_, ok := addrMap[a]`, and the search of AddScanAddress.
unfoldable pub listed : Text → List Text → Bool
listed a [] = false
listed a (x ∷ xs) = if text_eq x a then true else listed a xs

-- scanSpecifiedBlock: its three loops, from the inside.
unfoldable pub scan_addresses : Text → ℕ → Text → CommonVout → List Text → List Text → List Deposit
scan_addresses coin_type height txid v watched [] = []
scan_addresses coin_type height txid v watched (a ∷ as') =
    let rest = scan_addresses coin_type height txid v watched as' in
    if listed a watched
    then (record {
      coin_type = coin_type;
      address = a;
      value = v.value;
      height = height;
      tx = txid;
      n = v.n;
      status = not_processed;
    }
        ∷ rest)
    else rest

unfoldable pub scan_vouts : Text → ℕ → Text → List Text → List CommonVout → List Deposit
unfolding scan_addresses
scan_vouts coin_type height txid watched [] = []
scan_vouts coin_type height txid watched (v ∷ vs) =
    scan_addresses coin_type height txid v watched v.addresses
    ++ scan_vouts coin_type height txid watched vs

unfoldable pub scan_txs : Text → ℕ → List Text → List CommonTx → List Deposit
unfolding scan_vouts
scan_txs coin_type height watched [] = []
scan_txs coin_type height watched (t ∷ ts) =
    scan_vouts coin_type height t.txid watched t.vout ++ scan_txs coin_type height watched ts

unfoldable pub scan_specified_block : CommonBlock → Text → List Text → List Deposit
unfolding scan_txs
scan_specified_block block coin_type deposit_addrs =
    scan_txs coin_type block.height deposit_addrs block.raw_tx

abbrev or_nil : Option (List Text) → List Text
or_nil none = []
or_nil (some l) = l

abbrev is_not_processed : DepositStatus → Bool
is_not_processed not_processed = true
is_not_processed _ = false

abbrev pub keep_unprocessed : List Deposit → Text → Deposit → Result (List Deposit)
keep_unprocessed dvs k dv = ok (if is_not_processed dv.status then dvs ++ (dv ∷ []) else dvs)

module _ ⦃b : Bolt⦄ where
  unfoldable pub new_store : Db → Result (Unit {0}) × Db
  new_store = update (create_bucket deposit_bkt)

  unfoldable pub add_supported_coin : Text → Db → Result (Unit {0}) × Db
  add_supported_coin coin_type =
      update do bkt ← lift (get_scan_meta_bkt coin_type); create_bucket bkt

  unfoldable pub get_scan_addresses_tx : Text → Tx Db (List Text)
  get_scan_addresses_tx coin_type = do
    bkt ← lift (get_scan_meta_bkt coin_type)
    addrs ← find_object bkt deposit_addresses_key
    pure (or_nil addrs)

  unfoldable pub get_scan_addresses : Text → Db → Result (List Text)
  unfolding get_scan_addresses_tx
  get_scan_addresses coin_type = read_only (get_scan_addresses_tx coin_type)

  unfoldable pub add_scan_address_tx : Text → Text → Tx Db (Unit {0})
  unfolding get_scan_addresses_tx
  add_scan_address_tx addr coin_type = do
    addrs ← get_scan_addresses_tx coin_type
    guard (not (listed addr addrs)) duplicate_deposit_address
    bkt ← lift (get_scan_meta_bkt coin_type)
    put_object bkt deposit_addresses_key (addrs ++ (addr ∷ []))

  unfoldable pub add_scan_address : Text → Text → Db → Result (Unit {0}) × Db
  unfolding add_scan_address_tx
  add_scan_address addr coin_type = update (add_scan_address_tx addr coin_type)

  unfoldable pub set_deposit_processed_tx : Text → Tx Db (Unit {0})
  set_deposit_processed_tx dv_key = do
    dv ← get_object deposit_bkt dv_key
    guard (text_eq (id dv) dv_key) deposit_key_mismatch
    put_object deposit_bkt (id dv) (record dv { status = accepted })

  unfoldable pub set_deposit_processed : Text → Db → Result (Unit {0}) × Db
  unfolding set_deposit_processed_tx
  set_deposit_processed dv_key = update (set_deposit_processed_tx dv_key)

  unfoldable pub get_unprocessed_deposits : Db → Result (List Deposit)
  get_unprocessed_deposits = read_only (for_each_object deposit_bkt keep_unprocessed [])

  unfoldable pub push_deposit_tx : Deposit → Tx Db (Unit {0})
  push_deposit_tx dv = do
    has ← has_key deposit_bkt (id dv)
    guard (not has) deposit_exists
    put_object deposit_bkt (id dv) dv

  -- The switch on the error of pushDepositTx: a deposit that exists is left out.
  unfoldable pub push_new : Deposit → Tx Db Bool
  unfolding push_deposit_tx
  push_new dv db = elim (push_deposit_tx dv db) [
    | ok (u, db') ↦ ok (true, db')
    | err deposit_exists ↦ ok (false, db)
    | err e ↦ err e
  ]

  abbrev cons_if : Bool → Deposit → List Deposit → List Deposit
  cons_if true dv dvs = dv ∷ dvs
  cons_if false dv dvs = dvs

  unfoldable pub push_all : List Deposit → Tx Db (List Deposit)
  push_all [] = pure []
  push_all (dv ∷ dvs) = do
    fresh ← push_new dv
    pushed ← push_all dvs
    pure (cons_if fresh dv pushed)

  unfoldable pub scan_block_tx : CommonBlock → Text → Tx Db (List Deposit)
  unfolding push_all
  scan_block_tx block coin_type = do
    addrs ← get_scan_addresses_tx coin_type
    push_all (scan_specified_block block coin_type addrs)

  unfoldable pub scan_block : CommonBlock → Text → Db → Result (List Deposit) × Db
  unfolding scan_block_tx
  scan_block block coin_type = update (scan_block_tx block coin_type)
