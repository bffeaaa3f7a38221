-- ===== src/Sender.antt =====
-- src/sender/kitty.go and sender.go: the requests that are tried until the node of the wallet answers.
-- The node (rpc.go and the wallet's packages) is what each attempt meets; cipher.SHA256FromHex is the
-- test `is_sha`. A transaction is of any type; nil, on which Hash is called first, is left out.
pub mod Retrying
pub mod Dummy
use teller.Common.{
  Bool, true, false, Option, none, some, List, [], ◌∷◌, Text, is_empty, Result, ok, err, Error,
  txid_missing, service_failed, if◌then◌else◌,
}
use teller.Exchange.Send.{ConfirmResponse}

-- What the node answers, and whether the service quits in the wait that may follow.
pub record Attempt (A : Type 0) : Type 0 where
  pub answer : Result A
  pub quit : Bool

-- A retrying call has returned, has returned nil and no error, or still runs after the attempts.
pub data Retried (A : Type 0) : Type 0 where
  returned : Result A → Retried A
  nil retrying : Retried A

pub record BroadcastTxResponse : Type 0 where
  pub txid : Text
  pub error : Option Error

-- ConfirmRequest.Verify
unfoldable pub verify_confirm : Text → Result (Unit {0})
verify_confirm txid = if is_empty txid then err txid_missing else ok tt

abbrev pub confirmed_response : ConfirmResponse
confirmed_response = record { confirmed = true; error = none }

module _ (is_sha : Text → Bool) where
  -- GetTransaction, behind the conversion of the hash.
  fetched : Text → Result (Unit {0}) → Result ConfirmResponse
  fetched txid answer =
      if is_sha txid
      then elim answer [ err e ↦ err e | ok tx ↦ ok confirmed_response ]
      else err service_failed

  -- SendService.Confirm
  unfoldable pub confirm : Text → Result (Unit {0}) → Result ConfirmResponse
  unfolding fetched
  confirm txid answer = elim (verify_confirm txid) [ err e ↦ err e | ok u ↦ fetched txid answer ]

  confirm_rounds : Text → List (Attempt (Unit {0})) → Retried ConfirmResponse
  confirm_rounds txid [] = retrying
  confirm_rounds txid (t ∷ ts) =
      let rest = confirm_rounds txid ts in
      if is_sha txid
      then elim t.answer [
        | ok tx ↦ returned (ok confirmed_response)
        | err e ↦ if t.quit then nil else rest
      ]
      else returned (err service_failed)

  -- SendService.ConfirmRetry
  unfoldable pub confirm_retry : Text → List (Attempt (Unit {0})) → Retried ConfirmResponse
  unfolding confirm_rounds
  confirm_retry txid ts = elim (verify_confirm txid) [
    | err e ↦ returned (err e)
    | ok u ↦ confirm_rounds txid ts
  ]

  -- What Run sends to the request's channel, which is what IsTxConfirmed returns; the outer `none` is
  -- no answer yet, the inner one is nil.
  unfoldable pub is_tx_confirmed :
      Text → List (Attempt (Unit {0})) → Option (Option ConfirmResponse)
  unfolding confirm_retry
  is_tx_confirmed txid ts = elim (confirm_retry txid ts) [
    | returned (ok rsp) ↦ some (some rsp)
    | returned (err e) ↦ some (some (record { confirmed = false; error = some e }))
    | nil ↦ some none
    | retrying ↦ none
  ]

-- SendService.BroadcastTx; the answer of InjectTransaction is the txid.
unfoldable pub broadcast_tx : Result Text → Result BroadcastTxResponse
broadcast_tx (err e) = err e
broadcast_tx (ok txid) = ok (record { txid = txid; error = none })

-- SendService.BroadcastTxRetry
unfoldable pub broadcast_tx_retry : List (Attempt Text) → Retried BroadcastTxResponse
broadcast_tx_retry [] = retrying
broadcast_tx_retry (t ∷ ts) =
    let rest = broadcast_tx_retry ts in
    elim t.answer [
      | ok txid ↦ returned (ok (record { txid = txid; error = none }))
      | err e ↦ if t.quit then nil else rest
    ]

-- What Run sends back for a broadcast, which is what BroadcastTransaction returns.
unfoldable pub broadcast_transaction : List (Attempt Text) → Option (Option BroadcastTxResponse)
unfolding broadcast_tx_retry
broadcast_transaction ts = elim (broadcast_tx_retry ts) [
  | returned (ok rsp) ↦ some (some rsp)
  | returned (err e) ↦ some (some (record { txid = []; error = some e }))
  | nil ↦ some none
  | retrying ↦ none
]
