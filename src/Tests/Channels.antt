-- ===== src/Tests/Channels.antt =====
-- Two scanners at the multiplexer, and the stand-in for the sender.
use mathlib.Core.List.{Permᴰ}
use mathlib.Core.List.Permᴰ.{swap}
use teller.Common.{
  ◌≡◌, refl, arith, true, false, List, [], ◌∷◌, text_eq, length, find, set, parse_int64,
}
use teller.Scanner.Types.{Deposit, coin_btc, coin_sky}
use teller.Scanner.Store.{listed}
use teller.Scanner.Multiplexer.{Multiplexer}
use teller.Scanner.Multiplexer.Merging.{
  Worker, Lane, Merging, selecting, holding, multiplex, set_lane, put, receive, forward,
  forward_closed, Runs, here, next, HasReturned,
}
use teller.Scanner.Multiplexer.Order.{InOrder, Runs-InOrder}
use teller.Scanner.Multiplexer.Closing.{Runs-HasReturned}
use teller.Sender.Dummy.{
  DummyTransaction, new_dummy_sender, txns_of, find_seq, dummy_broadcast, confirm_key, by_number,
  confirm_handler, broadcast, confirm, DummyOp, dummy_run, get_broadcasted_transactions,
}
use teller.Sender.Dummy.Sorted.{CountsFrom, get_broadcasted_transactions-CountsFrom}
use teller.Tests.Exchanges.{dv, txid, addr}

abbrev scanners : Multiplexer
scanners = record { coins = coin_btc ∷ coin_sky ∷ []; scanner_count = 2 }

abbrev lane : List Deposit → Worker → Lane
lane channel worker = record { sent = dv ∷ []; channel = channel; closed = false; worker = worker }

-- The scanner of btc sends a note, which the goroutine takes, and passes on.
abbrev put_in : Merging
put_in = set_lane coin_btc (lane (dv ∷ []) selecting) (multiplex scanners)

abbrev held_on : Merging
held_on = set_lane coin_btc (lane [] (holding dv)) put_in

abbrev passed_on : Merging
passed_on = record (set_lane coin_btc (lane [] selecting) held_on) { out = (coin_btc, dv) ∷ [] }

to_held_on : Runs (multiplex scanners) held_on
unfolding multiplex set_lane listed text_eq
to_held_on = next (next here refl (put coin_btc dv refl)) refl (receive coin_btc dv [] refl refl)

to_passed_on : Runs (multiplex scanners) passed_on
unfolding multiplex set_lane listed text_eq
to_passed_on = next to_held_on refl (forward coin_btc dv refl refl (ground arith))

Runs-InOrder_example : InOrder passed_on
Runs-InOrder_example = Runs-InOrder scanners passed_on to_passed_on

-- Shutdown comes while the goroutine has the note.
abbrev shut_down : Merging
shut_down = record held_on { quitting = true }

still_holding : (shut_down.lanes coin_btc).worker ≡ holding dv
unfolding set_lane text_eq
still_holding = refl

is_added : listed coin_btc scanners.coins ≡ true
unfolding listed text_eq
is_added = refl

to_panic : Runs shut_down (record shut_down { panicked = true })
unfolding set_lane multiplex text_eq
to_panic = next here refl (forward_closed coin_btc dv refl refl)

Runs-HasReturned_example : ¬ HasReturned scanners (record shut_down { panicked = true })
Runs-HasReturned_example =
    Runs-HasReturned scanners coin_btc dv shut_down (record shut_down { panicked = true }) is_added
      refl still_holding to_panic

abbrev ops : List DummyOp
ops = broadcast txid ∷ broadcast addr ∷ broadcast txid ∷ confirm [] (49 ∷ []) ∷ []

-- The loop over the map comes to the second transaction first.
abbrev visited : List DummyTransaction
visited = record { confirmed = true; seq = 1 } ∷ record { confirmed = false; seq = 0 } ∷ []

any_order : Permᴰ (txns_of (dummy_run ops new_dummy_sender).broadcast_txns) visited
unfolding txns_of dummy_run new_dummy_sender dummy_broadcast confirm_handler by_number confirm_key
    find_seq find set parse_int64 text_eq
any_order = swap refl refl

get_broadcasted_transactions-CountsFrom_example :
    CountsFrom 0 (get_broadcasted_transactions visited)
    × (length (get_broadcasted_transactions visited) ≡ (dummy_run ops new_dummy_sender).seq)
get_broadcasted_transactions-CountsFrom_example =
    get_broadcasted_transactions-CountsFrom ops visited (ground arith) any_order
