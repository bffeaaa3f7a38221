-- ===== src/WalletScan/Update.antt =====
-- The updates that cmd/scan/scan.go offers: it chooses a block by the heights of the wallet, reads it
-- from the node and brings the addresses up to date.
use teller.Common.{
  zero, suc, ℕ, ◌&&◌, ◌==◌, not, Option, none, some, List, [], ◌∷◌, ◌++◌, Text, decimal, Result, ok,
  err, ◌>>=◌, service_failed, add_i64, sub_i64, ltb_i64, if◌then◌else◌,
}
use teller.WalletScan.{Tx, Address, AddressDeposit, update_address_info}

-- The block of the node, with the fields that scanBlock reads; an amount is a float64.
pub record NodeOut (F : Type 0) : Type 0 where
  pub value : F
  pub addresses : List Text

pub record NodeTx (F : Type 0) : Type 0 where
  pub txid : Text
  pub vout : List (NodeOut F)

pub record NodeBlock (F : Type 0) : Type 0 where
  pub previous_hash : Text
  pub raw_tx : List (NodeTx F)

unfoldable pub deposits_of : Tx → List Text → List AddressDeposit
deposits_of tx [] = []
deposits_of tx (a ∷ l) = record { addr = a; tx = record tx { address = a } } ∷ deposits_of tx l

-- strconv.FormatFloat(v, 'f', -8, 64) is `format`, btcutil.NewAmount is `new_amount`.
module _ {F : Type 0} (format : F → Text) (new_amount : F → Option ℕ) where
  out_deposits : Text → Text → ℕ → Text → ℕ → NodeOut F → Result (List AddressDeposit)
  unfolding deposits_of
  out_deposits hash parent height txid i out = elim (new_amount out.value) [
    | none ↦ err service_failed
    | some satoshis ↦ ok (
        deposits_of
          (record {
            tx_hash = txid ++ (b':' ∷ decimal i);
            address = [];
            block_hash = hash;
            parent_hash = parent;
            block_height = height;
            satoshi_amount = satoshis;
            bitcoin_amount = format out.value;
          })
          out.addresses)
  ]

  outs_deposits : Text → Text → ℕ → Text → ℕ → List (NodeOut F) → Result (List AddressDeposit)
  unfolding out_deposits
  outs_deposits hash parent height txid i [] = ok []
  outs_deposits hash parent height txid i (out ∷ outs) = do
    ds ← out_deposits hash parent height txid i out
    rest ← outs_deposits hash parent height txid (suc i) outs
    ok (ds ++ rest)

  txs_deposits : Text → Text → ℕ → List (NodeTx F) → Result (List AddressDeposit)
  unfolding outs_deposits
  txs_deposits hash parent height [] = ok []
  txs_deposits hash parent height (t ∷ ts) = do
    ds ← outs_deposits hash parent height t.txid 0 t.vout
    rest ← txs_deposits hash parent height ts
    ok (ds ++ rest)

  -- scanBlock; `get_hash` and `get_block` are the calls of the node.
  unfoldable pub wallet_scan_block :
      (ℕ → Result Text) → (Text → Result (NodeBlock F)) → ℕ → Result (List AddressDeposit)
  unfolding txs_deposits
  wallet_scan_block get_hash get_block block_id = do
    hash ← get_hash block_id
    block ← get_block hash
    txs_deposits hash block.previous_hash block_id block.raw_tx

-- The loops of findMin, findMax and findMid; on an empty wallet these panic, `none`.
least_min : ℕ → List Address → ℕ
least_min m [] = m
least_min m (a ∷ l) = least_min (if ltb_i64 a.min_scan_block m then a.min_scan_block else m) l

greatest_max : ℕ → List Address → ℕ
greatest_max m [] = m
greatest_max m (a ∷ l) = greatest_max (if ltb_i64 m a.max_scan_block then a.max_scan_block else m) l

greatest_mid : ℕ → List Address → ℕ
greatest_mid m [] = m
greatest_mid m (a ∷ l) = greatest_mid (if ltb_i64 m a.mid_scan_block then a.mid_scan_block else m) l

unfoldable pub find_min : List Address → Option ℕ
unfolding least_min
find_min [] = none
find_min (a ∷ l) = some (add_i64 (least_min a.min_scan_block (a ∷ l)) 1)

unfoldable pub find_max : List Address → Option ℕ
unfolding greatest_max
find_max [] = none
find_max (a ∷ l) = some (add_i64 (greatest_max a.max_scan_block (a ∷ l)) 1)

unfoldable pub find_mid : List Address → Option ℕ
unfolding greatest_mid
find_mid [] = none
find_mid (a ∷ l) = some (add_i64 (greatest_mid a.mid_scan_block (a ∷ l)) 1)

abbrev gap : Address → ℕ
gap a = sub_i64 a.mid_scan_block a.min_scan_block

-- findShort: dif and short after its first loop, which breaks at the first positive gap, and after
-- its second.
first_gap : ℕ → List Address → ℕ × ℕ
first_gap short [] = (0, short)
first_gap short (a ∷ l) =
    let rest = first_gap short l in if ltb_i64 0 (gap a) then (gap a, a.min_scan_block) else rest

shortest : ℕ × ℕ → List Address → ℕ × ℕ
shortest s [] = s
shortest s (a ∷ l) =
    shortest (if ltb_i64 (gap a) s.0 && not (gap a == 0) then (gap a, a.min_scan_block) else s) l

unfoldable pub find_short : List Address → Option ℕ
unfolding first_gap shortest
find_short [] = none
find_short (a ∷ l) = some (add_i64 (shortest (first_gap a.min_scan_block (a ∷ l)) (a ∷ l)).1 1)

-- findFar; what it returns is the height itself.
farthest : ℕ → ℕ → ℕ × ℕ → List Address → ℕ × ℕ
farthest min mid s [] = s
farthest min mid s (a ∷ l) =
    farthest min mid
      (if ltb_i64 s.0 (sub_i64 a.min_scan_block min) && ltb_i64 a.min_scan_block mid
        then (sub_i64 a.min_scan_block min, a.min_scan_block)
        else s)
      l

unfoldable pub find_far : List Address → Option ℕ
unfolding farthest
find_far addrs = elim (find_min addrs) [
  | none ↦ none
  | some min ↦ elim (find_mid addrs) [
    | none ↦ none
    | some mid ↦ some (farthest min mid (0, min) addrs).1
  ]
]

-- updateMin, updateMax, updateShort and updateFar; `scan` is scanBlock.
unfoldable pub update_at :
    (ℕ → Result (List AddressDeposit)) → List Address → ℕ → Result (List Address)
update_at scan addrs block_id = do
  deposits ← scan block_id
  ok (update_address_info addrs deposits block_id)

unfoldable pub update_chosen :
    (ℕ → Result (List AddressDeposit)) → List Address → Option ℕ → Option (Result (List Address))
unfolding update_at
update_chosen scan addrs none = none
update_chosen scan addrs (some block_id) = some (update_at scan addrs block_id)

unfoldable pub update_min :
    (ℕ → Result (List AddressDeposit)) → List Address → Option (Result (List Address))
unfolding update_chosen
update_min scan addrs = update_chosen scan addrs (find_min addrs)

unfoldable pub update_max :
    (ℕ → Result (List AddressDeposit)) → List Address → Option (Result (List Address))
unfolding update_chosen
update_max scan addrs = update_chosen scan addrs (find_max addrs)

unfoldable pub update_short :
    (ℕ → Result (List AddressDeposit)) → List Address → Option (Result (List Address))
unfolding update_chosen
update_short scan addrs = update_chosen scan addrs (find_short addrs)

unfoldable pub update_far :
    (ℕ → Result (List AddressDeposit)) → List Address → Option (Result (List Address))
unfolding update_chosen
update_far scan addrs = update_chosen scan addrs (find_far addrs)

-- The loop of run: `count` blocks from `i` on.
unfoldable pub scan_range :
    (ℕ → Result (List AddressDeposit)) → ℕ → ℕ → List Address → Result (List Address)
unfolding update_at
scan_range scan i zero addrs = ok addrs
scan_range scan i (suc count) addrs = do
  addrs' ← update_at scan addrs i
  scan_range scan (suc i) count addrs'
