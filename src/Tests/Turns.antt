-- ===== src/Tests/Turns.antt =====
-- Turns of the scan loop, blocks of the nodes, and the service's binding of addresses.
use teller.Common.{
  ◌≡◌, ◌⊎◌, inl, inr, refl, arith, ℕ, ◌+◌, ◌≤◌, ◌<◌, true, false, Option, none, some, [], ◌∷◌, ◌++◌,
  text_eq, ok, err, digits, decimal, i64_half, u64_mod, service_failed, next_hash_empty,
}
use teller.Dbutil.{
  get_bucket_object, put_bucket_value, bucket_has_key, view, for_each, fold_entries,
}
use teller.Db.Access.{find_object, put_object, has_key, update, read_only, for_each_object}
use teller.Db.Buckets.{get_scan_meta_bkt}
use teller.Scanner.Types.{Deposit, id, coin_btc, CommonBlock}
use teller.Scanner.Store.{
  listed, scan_addresses, scan_vouts, scan_txs, scan_specified_block, get_scan_addresses_tx,
  push_deposit_tx, push_new, push_all, scan_block_tx, scan_block, get_unprocessed_deposits,
}
use teller.Scanner.Store.Addresses.{watched}
use teller.Scanner.Blocks.{BtcVout, BtcBlock, btc_vouts, btc_txs, btc_block_to_common}
use teller.Scanner.Blocks.Numbering.{one_deposit_per_tx}
use teller.Scanner.Blocks.Waiting.{Turn, found, gave_up, btc_wait_for_next_block}
use teller.Scanner.Blocks.Waiting.Found.{btc_wait_for_next_block_found}
use teller.Scanner.Base.{ScanTurn, going, panicked, scan_turn, scan_loop}
use teller.Scanner.Base.Confirmed.{scan_turn_confirmed, failed_wait_panics}
use teller.Tests.Memory.{memory}
use teller.Tests.Exchanges.{addr, txid, dv}
use teller.Tests.Runs.{block, db0, db1, scanned}

abbrev turn : ScanTurn
turn = record {
  quit = false;
  best = ok 10;
  quit_in_wait = false;
  quit_after = none;
  next = gave_up next_hash_empty;
}

one_turn : scan_turn coin_btc 3 turn (some block) [] db0 ≡ (going none, dv ∷ [], db1)
unfolding scan_turn scan_block scan_block_tx get_scan_addresses_tx get_scan_meta_bkt find_object
    get_bucket_object text_eq scan_specified_block scan_txs scan_vouts scan_addresses listed
    push_all push_new push_deposit_tx has_key bucket_has_key id decimal digits put_object
    put_bucket_value update
one_turn = refl

small_best : (n : ℕ) → turn.best ≡ ok n → n < u64_mod
small_best n h = ground arith

scan_turn_confirmed_example :
    ((dv ∷ [] ≡ []) × (db1 ≡ db0))
    ⊎ ((best : ℕ) × (turn.best ≡ ok best) × (7 + 3 ≤ best) × (best < i64_half))
scan_turn_confirmed_example =
    scan_turn_confirmed coin_btc 3 turn block [] db0 (ground arith) small_best one_turn

failed_wait_panics_example :
    scan_loop coin_btc 3 (turn ∷ turn ∷ []) (some block) [] db0 ≡ (panicked, dv ∷ [], db1)
failed_wait_panics_example =
    failed_wait_panics coin_btc 3 10 turn turn [] block [] (dv ∷ []) db0 db1 next_hash_empty refl
      refl (ground arith) scanned refl refl (ground arith) refl refl

pub unprocessed : get_unprocessed_deposits db1 ≡ ok (dv ∷ [])
unfolding get_unprocessed_deposits read_only for_each_object for_each fold_entries
unprocessed = refl

abbrev out_of : ℕ → BtcVout ℕ
out_of value = record { value = value; addresses = addr ∷ [] }

-- A block of the node with two outputs to the same address.
abbrev node_block : BtcBlock ℕ
node_block = record {
  hash = 1 ∷ [];
  next_hash = 2 ∷ [];
  height = 7;
  raw_tx = record { txid = txid; vout = out_of 5 ∷ out_of 6 ∷ [] } ∷ [];
}

abbrev two_outputs : CommonBlock
two_outputs = record {
  height = 7;
  hash = 1 ∷ [];
  next_hash = 2 ∷ [];
  raw_tx =
      record {
        txid = txid;
        vout =
            record { value = 5; n = 0; addresses = addr ∷ [] }
            ∷ record { value = 6; n = 0; addresses = addr ∷ [] }
            ∷ [];
      }
      ∷ [];
}

abbrev same_amount : ℕ → Option ℕ
same_amount v = some v

converted : btc_block_to_common same_amount node_block ≡ ok two_outputs
unfolding btc_block_to_common btc_txs btc_vouts
converted = refl

both : scan_block two_outputs coin_btc db0 ≡ (ok (dv ∷ []), db1)
unfolding scan_block scan_block_tx get_scan_addresses_tx get_scan_meta_bkt find_object
    get_bucket_object text_eq scan_specified_block scan_txs scan_vouts scan_addresses listed
    push_all push_new push_deposit_tx has_key bucket_has_key id decimal digits put_object
    put_bucket_value update
both = refl

abbrev other : Deposit
other = record dv { value = 6 }

seen : scan_specified_block two_outputs coin_btc (watched coin_btc db0) ≡ dv ∷ other ∷ []
unfolding scan_specified_block scan_txs scan_vouts scan_addresses listed text_eq view
    get_scan_meta_bkt
seen = refl

one_deposit_per_tx_example :
    (s : Deposit) × (view db1.deposit_value (id dv) ≡ some s)
    × (view db1.deposit_value (id other) ≡ some s)
one_deposit_per_tx_example =
    one_deposit_per_tx same_amount node_block two_outputs coin_btc db0 dv other converted both
      (rw seen (inl refl)) (rw seen (inr (inl refl))) refl

abbrev last_block : CommonBlock
last_block = record two_outputs { hash = 9 ∷ []; next_hash = [] }

abbrev failing : Turn (BtcBlock ℕ)
failing = record { answer = err service_failed; quit = false }

abbrev answering : BtcBlock ℕ → Turn (BtcBlock ℕ)
answering b = record { answer = ok b; quit = false }

btc_wait_for_next_block_found_example :
    btc_wait_for_next_block same_amount
      (λ h. true)
      last_block
      ((failing ∷ []) ++ (answering node_block ∷ ((failing ∷ []) ++ (answering node_block ∷ []))))
    ≡ found two_outputs
btc_wait_for_next_block_found_example =
    btc_wait_for_next_block_found same_amount (λ h. true) last_block node_block two_outputs
      two_outputs (failing ∷ []) (answering node_block) (failing ∷ []) (answering node_block) []
      refl refl ((refl, inl (service_failed, refl)), tt) refl refl refl converted
      ((refl, (service_failed, refl)), tt) converted
