-- ===== src/Exchange/Store/Queries.antt =====
-- The queries of src/exchange/store.go that visit whole buckets, and what they answer.
use teller.Common.{
  ℕ, suc, Bool, Option, none, some, List, [], ◌∷◌, ◌++◌, Text, text_eq, Result, ok, add_i64,
  ltb_i64, if◌then◌else◌,
}
use teller.Common.Txs.{Tx, pure, ◌>>=◌}
use teller.Bolt.{Bolt}
use teller.Db.{Db}
use teller.Db.Access.{get_object, find_object, for_each_object, read_only}
use teller.Db.Buckets.{deposit_info_bkt, txs_bkt, kitty_deposit_seqs_bkt}
use teller.Scanner.Types.{Deposit, coin_btc, coin_sky, unset}
use teller.Exchange.Types.{BoundAddress, DepositInfo, DepositStats, wait_deposit, done, is_status}

abbrev or_nil : Option (List Text) → List Text
or_nil none = []
or_nil (some l) = l

-- One visit of GetDepositInfoArray, and of GetDepositStats.
abbrev pub keep_if :
    (DepositInfo → Bool) → List DepositInfo → Text → DepositInfo → Result (List DepositInfo)
keep_if flt dpis k dpi = ok (if flt dpi then dpis ++ (dpi ∷ []) else dpis)

abbrev pub count_in : DepositStats → Text → DepositInfo → Result DepositStats
count_in s k dpi = ok (record {
  total_btc_received =
      if text_eq dpi.coin_type coin_btc
      then add_i64 s.total_btc_received dpi.deposit_value
      else s.total_btc_received;
  total_sky_received =
      if text_eq dpi.coin_type coin_sky
      then add_i64 s.total_sky_received dpi.deposit_value
      else s.total_sky_received;
  total_boxes_sent =
      if is_status dpi.status done then add_i64 s.total_boxes_sent 1 else s.total_boxes_sent;
})

-- `sort.Slice(dpis, by UpdatedAt)`. It leaves open the order of equal times: here it is kept.
insert_by_time : DepositInfo → List DepositInfo → List DepositInfo
insert_by_time d [] = d ∷ []
insert_by_time d (e ∷ l) =
    let rest = insert_by_time d l in
    if ltb_i64 e.updated_at d.updated_at then e ∷ rest else d ∷ e ∷ l

unfoldable pub sort_by_time : List DepositInfo → List DepositInfo
unfolding insert_by_time
sort_by_time [] = []
sort_by_time (d ∷ l) = insert_by_time d (sort_by_time l)

unfoldable pub renumber : ℕ → List DepositInfo → List DepositInfo
renumber i [] = []
renumber i (d ∷ l) = record d { seq = i } ∷ renumber (suc i) l

abbrev no_deposit : Deposit
no_deposit = record {
  coin_type = [];
  address = [];
  value = 0;
  height = 0;
  tx = [];
  n = 0;
  status = unset;
}

module _ ⦃b : Bolt⦄ where
  unfoldable pub get_deposit_info_array : (DepositInfo → Bool) → Db → Result (List DepositInfo)
  get_deposit_info_array flt = read_only (for_each_object deposit_info_bkt (keep_if flt) [])

  -- GetDepositStats; Go returns the three sums, and -1 for each with an error.
  unfoldable pub get_deposit_stats : Db → Result DepositStats
  get_deposit_stats = read_only (
      for_each_object deposit_info_bkt count_in
        (record { total_btc_received = 0; total_sky_received = 0; total_boxes_sent = 0 }))

  unfoldable pub get_kitty_bind_address : Text → Db → Result BoundAddress
  get_kitty_bind_address kitty_id = read_only (get_object kitty_deposit_seqs_bkt kitty_id)

  -- The loop over the deposit IDs of an address.
  unfoldable pub load_all : List Text → Tx Db (List DepositInfo)
  load_all [] = pure []
  load_all (txn ∷ txns) = do
    dpi ← get_object deposit_info_bkt txn
    dpis ← load_all txns
    pure (dpi ∷ dpis)

  -- The answer for an address that has received nothing yet.
  abbrev pub awaiting : ℕ → Text → BoundAddress → DepositInfo
  awaiting now kitty_id bound = record {
    seq = 0;
    updated_at = now;
    status = wait_deposit;
    coin_type = bound.coin_type;
    kitty_id = kitty_id;
    deposit_address = bound.address;
    owner_address = [];
    deposit_id = [];
    txid = [];
    deposit_value = 0;
    error = [];
    deposit = no_deposit;
  }

  deposits_or_awaiting : ℕ → Text → BoundAddress → List Text → Tx Db (List DepositInfo)
  deposits_or_awaiting now kitty_id bound [] = pure (awaiting now kitty_id bound ∷ [])
  deposits_or_awaiting now kitty_id bound (txn ∷ txns) = load_all (txn ∷ txns)

  unfoldable pub get_deposit_info_of_kitty_id : ℕ → Text → Db → Result (List DepositInfo)
  unfolding load_all deposits_or_awaiting sort_by_time renumber
  get_deposit_info_of_kitty_id now kitty_id = read_only do
    bound ← get_object kitty_deposit_seqs_bkt kitty_id
    txns ← find_object txs_bkt bound.address
    dpis ← deposits_or_awaiting now kitty_id bound (or_nil txns)
    pure (renumber 0 (sort_by_time dpis))
