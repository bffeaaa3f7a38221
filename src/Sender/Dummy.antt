-- ===== src/Sender/Dummy.antt =====
-- src/sender/dummy.go: the sender that stands in for the wallet's node. A transaction is known by its
-- hash; `number` reads the argument seq.
pub mod Numbered
pub mod Sorted
use teller.Common.{
  ℕ, ◌+◌, ◌==◌, ◌&&◌, Bool, true, false, Option, none, some, List, [], ◌∷◌, ◌++◌, Text, is_empty,
  parse_int64, StringMap, find, set, add_i64, ltb_i64, Error, service_failed, if◌then◌else◌,
}
use teller.Exchange.Send.{ConfirmResponse}
use teller.Sender.{BroadcastTxResponse}

pub record DummyTransaction : Type 0 where
  pub confirmed : Bool
  pub seq : ℕ  -- int64

pub record DummySender : Type 0 where
  pub broadcast_txns : StringMap DummyTransaction
  pub seq : ℕ  -- int64

unfoldable pub new_dummy_sender : DummySender
new_dummy_sender = record { broadcast_txns = []; seq = 0 }

-- BroadcastTransaction
unfoldable pub dummy_broadcast : Text → DummySender → BroadcastTxResponse × DummySender
dummy_broadcast txid s = elim (find txid s.broadcast_txns) [
  | some t ↦ (record { txid = []; error = some service_failed }, s)
  | none ↦ (
    record { txid = txid; error = none },
    record {
      broadcast_txns = set txid (record { confirmed = false; seq = s.seq }) s.broadcast_txns;
      seq = add_i64 s.seq 1;
    },
  )
]

abbrev pub is_confirmed : Option DummyTransaction → Bool
is_confirmed none = false
is_confirmed (some t) = t.confirmed

-- IsTxConfirmed
unfoldable pub dummy_is_tx_confirmed : Text → DummySender → ConfirmResponse
dummy_is_tx_confirmed txid s = record {
  confirmed = is_confirmed (find txid s.broadcast_txns);
  error = none;
}

-- sort.Slice of getBroadcastedTransactions; equal numbers keep their order here.
unfoldable pub insert_by_seq : DummyTransaction → List DummyTransaction → List DummyTransaction
insert_by_seq t [] = t ∷ []
insert_by_seq t (u ∷ l) =
    let rest = insert_by_seq t l in if ltb_i64 u.seq t.seq then u ∷ rest else t ∷ u ∷ l

unfoldable pub sort_by_seq : List DummyTransaction → List DummyTransaction
unfolding insert_by_seq
sort_by_seq [] = []
sort_by_seq (t ∷ l) = insert_by_seq t (sort_by_seq l)

-- The transactions of the map.
unfoldable pub txns_of : StringMap DummyTransaction → List DummyTransaction
txns_of [] = []
txns_of ((k, t) ∷ m) = t ∷ txns_of m

-- `visited` are the transactions of the map in the order in which the loop over the map comes to
-- them, which Go leaves open.
unfoldable pub get_broadcasted_transactions : List DummyTransaction → List DummyTransaction
unfolding sort_by_seq
get_broadcasted_transactions visited = sort_by_seq visited

-- The loop over the map for a number: the key of the first transaction with it.
unfoldable pub find_seq : ℕ → StringMap DummyTransaction → Option Text
find_seq n [] = none
find_seq n ((k, t) ∷ m) = let rest = find_seq n m in if t.seq == n then some k else rest

-- What confirmBroadcastedTransactionHandler answers.
pub data Confirmation : Type 0 where
  argument_missing invalid_seq not_found confirmed_now : Confirmation

unfoldable pub confirm_key : Option Text → DummySender → Confirmation × DummySender
confirm_key none s = (not_found, s)
confirm_key (some k) s = elim (find k s.broadcast_txns) [
  | none ↦ (not_found, s)
  | some t ↦ (
    confirmed_now,
    record s { broadcast_txns = set k (record t { confirmed = true }) s.broadcast_txns },
  )
]

unfoldable pub by_number : Option ℕ → DummySender → Confirmation × DummySender
unfolding confirm_key
by_number none s = (invalid_seq, s)
by_number (some n) s = confirm_key (find_seq n s.broadcast_txns) s

unfoldable pub by_txid : Text → Option ℕ → DummySender → Confirmation × DummySender
unfolding confirm_key
by_txid txid none s = (invalid_seq, s)
by_txid txid (some n) s = confirm_key (some txid) s

-- The txid comes before the number, which has to be one all the same.
unfoldable pub confirm_handler : Text → Text → DummySender → Confirmation × DummySender
unfolding by_number by_txid
confirm_handler txid seq_str s =
    if is_empty txid
    then (if is_empty seq_str then (argument_missing, s) else by_number (parse_int64 seq_str) s)
    else (if is_empty seq_str
        then confirm_key (some txid) s
        else by_txid txid (parse_int64 seq_str) s)

-- The calls that change the sender.
pub data DummyOp : Type 0 where
  broadcast : Text → DummyOp
  confirm : Text → Text → DummyOp

unfoldable pub dummy_run : List DummyOp → DummySender → DummySender
dummy_run [] s = s
dummy_run (broadcast txid ∷ ops) s = dummy_run ops (dummy_broadcast txid s).1
dummy_run (confirm txid seq_str ∷ ops) s = dummy_run ops (confirm_handler txid seq_str s).1
