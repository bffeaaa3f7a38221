-- ===== src/Exchange/Facade.antt =====
-- src/exchange/exchange.go: what the exchange answers to the teller service.
use teller.Common.{ℕ, Bool, true, false, List, [], ◌∷◌, Text, Result, ok, err}
use teller.Bolt.{Bolt}
use teller.Db.{Db}
use teller.Exchange.Types.{DepositInfo}
use teller.Exchange.Deposit.{status_string}
use teller.Exchange.Store.Queries.{
  get_deposit_info_of_kitty_id, get_deposit_info_array, get_kitty_bind_address,
}

pub record DepositStatus : Type 0 where
  pub seq : ℕ  -- uint64
  pub updated_at : ℕ  -- int64
  pub status : Text
  pub coin_type : Text

pub record DepositStatusDetail : Type 0 where
  pub seq : ℕ  -- uint64
  pub updated_at : ℕ  -- int64
  pub status : Text
  pub kitty_id : Text
  pub deposit_address : Text
  pub owner_address : Text
  pub coin_type : Text
  pub txid : Text

unfoldable pub statuses : List DepositInfo → List DepositStatus
statuses [] = []
statuses (di ∷ dis) =
    record {
      seq = di.seq;
      updated_at = di.updated_at;
      status = status_string di.status;
      coin_type = di.coin_type;
    }
    ∷ statuses dis

abbrev pub detail_of : DepositInfo → DepositStatusDetail
detail_of di = record {
  seq = di.seq;
  updated_at = di.updated_at;
  status = status_string di.status;
  kitty_id = di.kitty_id;
  deposit_address = di.deposit_address;
  owner_address = di.owner_address;
  coin_type = di.coin_type;
  txid = di.txid;
}

unfoldable pub details : List DepositInfo → List DepositStatusDetail
details [] = []
details (di ∷ dis) = detail_of di ∷ details dis

module _ ⦃b : Bolt⦄ where
  unfoldable pub get_deposit_statuses : ℕ → Text → Db → Result (List DepositStatus)
  get_deposit_statuses now kitty_id db = elim (get_deposit_info_of_kitty_id now kitty_id db) [
    | err e ↦ err e
    | ok dis ↦ ok (statuses dis)
  ]

  unfoldable pub get_deposit_status_detail :
      (DepositInfo → Bool) → Db → Result (List DepositStatusDetail)
  get_deposit_status_detail flt db = elim (get_deposit_info_array flt db) [
    | err e ↦ err e
    | ok dis ↦ ok (details dis)
  ]

  unfoldable pub is_bound : Text → Db → Bool
  is_bound kitty_id db = elim (get_kitty_bind_address kitty_id db) [
    | err e ↦ false
    | ok bound ↦ true
  ]
