-- ===== src/Exchange/Types.antt =====
-- The records of the exchange (src/exchange/deposit.go, exchange.go).
use teller.Common.{ℕ, Text, Bool, true, false}
use teller.Scanner.Types.{Deposit}

pub data Status : Type 0 where
  wait_deposit wait_send wait_partial wait_confirm done unknown wait_decide : Status

pub record BoundAddress : Type 0 where
  pub kitty_id : Text
  pub address : Text
  pub coin_type : Text

pub record DepositInfo : Type 0 where
  pub seq : ℕ  -- uint64
  pub updated_at : ℕ  -- int64
  pub status : Status
  pub coin_type : Text
  pub kitty_id : Text
  pub deposit_address : Text
  pub owner_address : Text
  pub deposit_id : Text
  pub txid : Text
  pub deposit_value : ℕ  -- int64
  pub error : Text
  pub deposit : Deposit

pub record DepositTrack : Type 0 where
  pub amount_deposited : ℕ  -- int64
  pub kitty_id : Text
  pub amount_required : ℕ  -- int64

pub record DepositStats : Type 0 where
  pub total_btc_received : ℕ  -- int64
  pub total_sky_received : ℕ  -- int64
  pub total_boxes_sent : ℕ  -- int64

-- `==` on statuses.
abbrev pub is_status : Status → Status → Bool
is_status wait_deposit wait_deposit = true
is_status wait_send wait_send = true
is_status wait_partial wait_partial = true
is_status wait_confirm wait_confirm = true
is_status done done = true
is_status unknown unknown = true
is_status wait_decide wait_decide = true
is_status _ _ = false
