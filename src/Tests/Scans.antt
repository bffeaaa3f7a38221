-- ===== src/Tests/Scans.antt =====
-- A block with two outputs, one of them to a watched address, scanned twice.
use teller.Common.{◌≡◌, ◌↔◌, refl, some, [], ◌∷◌, Text, text_eq, ok, Any, digits, decimal}
use teller.Dbutil.{get_bucket_object, put_bucket_value, bucket_has_key}
use teller.Db.{Db, empty_db}
use teller.Db.Access.{find_object, put_object, has_key, update}
use teller.Db.Buckets.{get_scan_meta_bkt}
use teller.Scanner.Types.{Deposit, id, coin_btc, CommonVout, CommonBlock}
use teller.Scanner.Store.{
  deposit_addresses_key, listed, scan_addresses, scan_vouts, scan_txs, scan_specified_block,
  get_scan_addresses_tx, add_scan_address_tx, add_scan_address, push_deposit_tx, push_new, push_all,
  scan_block_tx, scan_block,
}
use teller.Scanner.Store.Scanning.{PaidIn, deposit_of, scan_specified_block_iff}
use teller.Scanner.Store.Addresses.{watched}
use teller.Scanner.Store.Origin.{FromList, scan_block-FromList}
use teller.Scanner.Store.Rescan.{PushedAll, scan_block_again}
use teller.Tests.Memory.{memory}

abbrev addr : Text
addr = 65 ∷ []

abbrev txid : Text
txid = 116 ∷ []

abbrev watched_out : CommonVout
watched_out = record { value = 5; n = 0; addresses = addr ∷ [] }

abbrev other_out : CommonVout
other_out = record { value = 9; n = 1; addresses = (66 ∷ []) ∷ [] }

abbrev block : CommonBlock
block = record {
  height = 7;
  hash = [];
  next_hash = [];
  raw_tx = record { txid = txid; vout = watched_out ∷ other_out ∷ [] } ∷ [];
}

abbrev found : Deposit
found = deposit_of coin_btc 7 txid watched_out addr

abbrev db : Db
db = record empty_db {
  scan_meta_btc = some (record { rows = (deposit_addresses_key, addr ∷ []) ∷ []; counter = 0 });
  deposit_value = some (record { rows = []; counter = 0 });
}

abbrev scanned_db : Db
scanned_db = record db {
  deposit_value = some (record { rows = ((116 ∷ 58 ∷ 48 ∷ []), found) ∷ []; counter = 0 });
}

scan_specified_block_iff_example :
    Any (λ (d : Deposit). d ≡ found) (scan_specified_block block coin_btc (addr ∷ []))
    ↔ PaidIn found block coin_btc (addr ∷ [])
scan_specified_block_iff_example = scan_specified_block_iff block coin_btc (addr ∷ []) found

scan : scan_block block coin_btc db ≡ (ok (found ∷ []), scanned_db)
unfolding scan_block scan_block_tx get_scan_addresses_tx get_scan_meta_bkt find_object
    get_bucket_object text_eq scan_specified_block scan_txs scan_vouts scan_addresses listed
    push_all push_new push_deposit_tx has_key bucket_has_key id decimal digits put_object
    put_bucket_value update
scan = refl

scan_block-FromList_example :
    PushedAll (scan_specified_block block coin_btc (watched coin_btc db)) (found ∷ []) db scanned_db
    × FromList (scan_specified_block block coin_btc (watched coin_btc db)) db scanned_db
scan_block-FromList_example = scan_block-FromList block coin_btc db scan

scan_block_again_example : scan_block block coin_btc scanned_db ≡ (ok [], scanned_db)
scan_block_again_example = scan_block_again block coin_btc db scan refl

abbrev watching_db : Db
watching_db = record db {
  scan_meta_btc = some (record {
    rows = (deposit_addresses_key, addr ∷ (67 ∷ []) ∷ []) ∷ (deposit_addresses_key, addr ∷ []) ∷ [];
    counter = 0;
  });
}

watch : add_scan_address (67 ∷ []) coin_btc db ≡ (ok tt, watching_db)
unfolding add_scan_address add_scan_address_tx get_scan_addresses_tx get_scan_meta_bkt find_object
    get_bucket_object text_eq listed put_object put_bucket_value update
watch = refl
