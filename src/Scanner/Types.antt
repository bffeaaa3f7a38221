-- ===== src/Scanner/Types.antt =====
-- Deposits, blocks and coin types (src/scanner/scanner.go, base_scanner.go, store.go).
use teller.Common.{ℕ, List, ◌++◌, [], ◌∷◌, Text, codes, decimal}

-- `unset` is Go's zero value of this string type.
pub data DepositStatus : Type 0 where
  unset not_processed rejected accepted : DepositStatus

pub record Deposit : Type 0 where
  pub coin_type : Text
  pub address : Text
  pub value : ℕ  -- int64
  pub height : ℕ  -- int64
  pub tx : Text
  pub n : ℕ  -- uint32
  pub status : DepositStatus

-- "$tx:$n"
unfoldable pub id : Deposit → Text
id d = d.tx ++ (b':' ∷ decimal d.n)

abbrev pub coin_btc : Text
coin_btc = codes "BTC"

abbrev pub coin_sky : Text
coin_sky = codes "SKY"

-- GetCoinTypes
abbrev pub coin_types : List Text
coin_types = coin_btc ∷ coin_sky ∷ []

pub record CommonVout : Type 0 where
  pub value : ℕ  -- int64
  pub n : ℕ  -- uint32
  pub addresses : List Text

pub record CommonTx : Type 0 where
  pub txid : Text
  pub vout : List CommonVout

pub record CommonBlock : Type 0 where
  pub height : ℕ  -- int64
  pub hash : Text
  pub next_hash : Text
  pub raw_tx : List CommonTx
