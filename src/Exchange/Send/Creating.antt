-- ===== src/Exchange/Send/Creating.antt =====
-- createTransaction and broadcastTransaction of src/exchange/send.go, which nothing calls yet. The
-- number of the kitty is read by `kitty_id_from_string`, the transaction made by `create`; both are
-- calls of other packages.
use teller.Common.{
  Option, none, some, Text, is_empty, Result, ok, err, no_bound_address, no_response, wrapped,
  ◌>>=◌, if◌then◌else◌,
}
use teller.Exchange.Types.{DepositInfo}
use teller.Sender.{BroadcastTxResponse}

module _ {K T : Type 0} (kitty_id_from_string : Text → Result K)
    (create : Text → K → Result T) where
  unfoldable pub create_transaction : DepositInfo → Result T
  create_transaction di =
      if is_empty di.deposit_address
      then err no_bound_address
      else kitty_id_from_string di.kitty_id >>= create di.owner_address

-- Of the sender's answer, `none` for nil.
unfoldable pub broadcast_transaction : Option BroadcastTxResponse → Result BroadcastTxResponse
broadcast_transaction none = err no_response
broadcast_transaction (some rsp) = elim rsp.error [ none ↦ ok rsp | some e ↦ err (wrapped e) ]
