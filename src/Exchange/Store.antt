-- ===== src/Exchange/Store.antt =====
-- src/exchange/store.go: the exchange's buckets. Each function works inside one transaction or opens
-- its own, as in the source; `now` is what time.Now().UTC().Unix() gives.
pub mod Queries
pub mod Creation
pub mod Bindings
pub mod Recording
use teller.Common.{
  ℕ, Bool, true, false, not, Option, none, some, List, [], ◌∷◌, ◌++◌, Text, text_eq, Result, ok,
  err, Error, is_some, if◌then◌else◌, address_already_bound, no_bound_address, coin_type_mismatch,
  deposit_info_exists, deposit_info_key_mismatch, invalid_coin_type,
}
use teller.Common.Txs.{Tx, pure, throw, lift, guard, or_throw, wrap, ◌>>=◌, ◌>>◌}
use teller.Bolt.{Bolt}
use teller.Db.{Db, Field}
use teller.Db.Access.{
  get_object, find_object, put_object, has_key, next_seq, create_bucket, update, read_only,
}
use teller.Db.Buckets.{
  deposit_info_bkt, txs_bkt, bind_address_btc_bkt, bind_address_sky_bkt, kitty_deposit_seqs_bkt,
  deposit_track_bkt, reservations_kitty_bkt, get_bind_address_bkt,
}
use teller.Scanner.Types.{Deposit, id, coin_btc, coin_sky}
use teller.Exchange.Types.{BoundAddress, DepositInfo, DepositTrack, wait_decide}
use teller.Exchange.Deposit.{validate_for_status}

module _ ⦃b : Bolt⦄ where
  -- NewStore: the buckets of this package; the one of each coin type is in GetBindAddressBkt.
  create_buckets : Tx Db (Unit {0})
  create_buckets = do
    create_bucket deposit_info_bkt
    create_bucket bind_address_btc_bkt
    create_bucket bind_address_sky_bkt
    create_bucket kitty_deposit_seqs_bkt
    create_bucket txs_bkt
    create_bucket deposit_track_bkt

  unfoldable pub new_store : Db → Result (Unit {0}) × Db
  unfolding create_buckets
  new_store = update create_buckets

  unfoldable pub get_bind_address_tx : Text → Text → Tx Db (Option BoundAddress)
  get_bind_address_tx deposit_addr coin_type = do
    bkt ← lift (get_bind_address_bkt coin_type)
    find_object bkt deposit_addr

  unfoldable pub get_bind_address : Text → Text → Db → Result (Option BoundAddress)
  unfolding get_bind_address_tx
  get_bind_address deposit_addr coin_type = read_only (get_bind_address_tx deposit_addr coin_type)

  -- The transaction of BindAddress, and the body of BindAddressWithTx.
  unfoldable pub bind_in : Field BoundAddress → BoundAddress → Tx Db BoundAddress
  unfolding get_bind_address_tx
  bind_in bkt bound = do
    existing ← get_bind_address_tx bound.address bound.coin_type
    guard (not (is_some existing)) address_already_bound
    put_object bkt bound.address bound
    pure bound

  unfoldable pub bind_address : Text → Text → Text → Db → Result BoundAddress × Db
  unfolding bind_in
  bind_address kitty_id deposit_addr coin_type db = elim (get_bind_address_bkt coin_type) [
    | err e ↦ (err e, db)
    | ok bkt ↦
        update
          (bind_in bkt
            (record { kitty_id = kitty_id; address = deposit_addr; coin_type = coin_type }))
          db
  ]

  unfoldable pub bind_address_with_tx : Text → Text → Text → Tx Db BoundAddress
  unfolding bind_in
  bind_address_with_tx kitty_id deposit_addr coin_type = do
    bkt ← lift (get_bind_address_bkt coin_type)
    bind_in bkt (record { kitty_id = kitty_id; address = deposit_addr; coin_type = coin_type })

  price_in : Text → ℕ → ℕ → Tx Db ℕ
  price_in coin_type sky btc =
      if text_eq coin_type coin_sky
      then pure sky
      else if text_eq coin_type coin_btc
      then pure btc
      else throw invalid_coin_type

  unfoldable pub get_kitty_price_tx : Text → Text → Tx Db ℕ
  unfolding price_in
  get_kitty_price_tx kitty_id coin_type = do
    r ← get_object reservations_kitty_bkt kitty_id
    price_in coin_type r.price_sky r.price_btc

  new_track : BoundAddress → Tx Db (Unit {0})
  unfolding get_kitty_price_tx
  new_track bound = do
    price ← get_kitty_price_tx bound.kitty_id bound.coin_type
    put_object deposit_track_bkt bound.address
        (record { kitty_id = bound.kitty_id; amount_deposited = 0; amount_required = price })

  unfoldable pub create_deposit_track_tx : BoundAddress → Tx Db (Unit {0})
  unfolding new_track
  create_deposit_track_tx bound = do
    has ← has_key deposit_track_bkt bound.address
    if has then pure tt else new_track bound

  unfoldable pub get_deposit_track_tx : Text → Tx Db DepositTrack
  get_deposit_track_tx deposit_addr = get_object deposit_track_bkt deposit_addr

  unfoldable pub update_deposit_track_tx : Text → DepositTrack → Tx Db (Unit {0})
  update_deposit_track_tx deposit_addr dt = put_object deposit_track_bkt deposit_addr dt

  unfoldable pub get_deposit_track : Text → Db → Result DepositTrack
  unfolding get_deposit_track_tx
  get_deposit_track deposit_addr = read_only (get_deposit_track_tx deposit_addr)

  unfoldable pub update_deposit_track : Text → DepositTrack → Db → Result (Unit {0}) × Db
  unfolding update_deposit_track_tx
  update_deposit_track deposit_addr dt = update (update_deposit_track_tx deposit_addr dt)

  unfoldable pub get_deposit_info_tx : Text → Tx Db DepositInfo
  get_deposit_info_tx txid = get_object deposit_info_bkt txid

  unfoldable pub get_deposit_info : Text → Db → Result DepositInfo
  unfolding get_deposit_info_tx
  get_deposit_info txid = read_only (get_deposit_info_tx txid)

  abbrev or_nil : Option (List Text) → List Text
  or_nil none = []
  or_nil (some l) = l

  -- The list of an address gets one more deposit ID.
  unfoldable pub append_tx : Text → Text → Tx Db (Unit {0})
  append_tx deposit_addr deposit_id = do
    txs ← find_object txs_bkt deposit_addr
    put_object txs_bkt deposit_addr (or_nil txs ++ (deposit_id ∷ []))

  unfoldable pub add_deposit_info_tx : ℕ → DepositInfo → Tx Db DepositInfo
  add_deposit_info_tx now di = do
    has ← has_key deposit_info_bkt di.deposit_id
    guard (not has) deposit_info_exists
    seq ← next_seq deposit_info_bkt
    lift (validate_for_status (record di { seq = seq; updated_at = now }))
    put_object deposit_info_bkt di.deposit_id (record di { seq = seq; updated_at = now })
    append_tx di.deposit_address di.deposit_id
    pure (record di { seq = seq; updated_at = now })

  unfoldable pub add_deposit_info : ℕ → DepositInfo → Db → Result DepositInfo × Db
  unfolding add_deposit_info_tx
  add_deposit_info now di = update (add_deposit_info_tx now di)

  -- The DepositInfo of a deposit that is seen for the first time.
  abbrev pub new_deposit_info : Deposit → BoundAddress → DepositInfo
  new_deposit_info dv bound = record {
    seq = 0;
    updated_at = 0;
    status = wait_decide;
    coin_type = dv.coin_type;
    kitty_id = bound.kitty_id;
    deposit_address = dv.address;
    owner_address = [];
    deposit_id = id dv;
    txid = [];
    deposit_value = dv.value;
    error = [];
    deposit = dv;
  }

  unfoldable pub create_deposit_info_tx : ℕ → Deposit → Tx Db DepositInfo
  create_deposit_info_tx now dv = do
    found ← wrap (get_bind_address_tx dv.address dv.coin_type)
    bound ← or_throw found no_bound_address
    wrap (create_deposit_track_tx bound)
    guard (text_eq bound.coin_type dv.coin_type) coin_type_mismatch
    wrap (add_deposit_info_tx now (new_deposit_info dv bound))

  existing_or_create : ℕ → Deposit → Option DepositInfo → Tx Db DepositInfo
  unfolding create_deposit_info_tx
  existing_or_create now dv (some di) = pure di
  existing_or_create now dv none = create_deposit_info_tx now dv

  unfoldable pub get_or_create_tx : ℕ → Deposit → Tx Db DepositInfo
  unfolding existing_or_create
  get_or_create_tx now dv = do
    found ← wrap (find_object deposit_info_bkt (id dv))
    existing_or_create now dv found

  unfoldable pub get_or_create_deposit_info : ℕ → Deposit → Db → Result DepositInfo × Db
  unfolding get_or_create_tx
  get_or_create_deposit_info now dv = update (get_or_create_tx now dv)

  unfoldable pub update_deposit_info_tx :
      ℕ → Text → (DepositInfo → DepositInfo) → (DepositInfo → Tx Db (Unit {0})) → Tx Db DepositInfo
  update_deposit_info_tx now txid change callback = do
    dpi ← get_object deposit_info_bkt txid
    guard (text_eq dpi.deposit_id txid) deposit_info_key_mismatch
    let dpi' = record (change dpi) { updated_at = now }
    put_object deposit_info_bkt txid dpi'
    callback dpi'
    pure dpi'

  unfoldable pub update_deposit_info_callback :
      ℕ
      → Text
      → (DepositInfo → DepositInfo)
      → (DepositInfo → Tx Db (Unit {0}))
      → Db
      → Result DepositInfo × Db
  unfolding update_deposit_info_tx
  update_deposit_info_callback now txid change callback =
      update (update_deposit_info_tx now txid change callback)

  unfoldable pub update_deposit_info :
      ℕ → Text → (DepositInfo → DepositInfo) → Db → Result DepositInfo × Db
  unfolding update_deposit_info_callback
  update_deposit_info now txid change = update_deposit_info_callback now txid change (λ _. pure tt)
