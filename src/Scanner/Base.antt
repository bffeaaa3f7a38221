-- ===== src/Scanner/Base.antt =====
-- The scan goroutine and the deposit pipe of src/scanner/base_scanner.go.
pub mod Confirmed
pub mod Marking
pub mod Beginning
use teller.Common.{
  ℕ, Bool, true, false, Option, none, some, List, [], ◌∷◌, ◌++◌, Text, Result, ok, err, Error,
  scanner_quit, add_i64, ltb_i64, take, if◌then◌else◌,
}
use teller.Bolt.{Bolt}
use teller.Db.{Db}
use teller.Scanner.Types.{Deposit, CommonBlock, id}
use teller.Scanner.Store.{scan_block, set_deposit_processed, get_unprocessed_deposits}
use teller.Scanner.Blocks.Waiting.{Waited, found, gave_up, waiting}

-- One turn of the scan loop: whether the scanner quits at its start, what getBlockCount answers,
-- whether it quits in a wait, how many deposits are sent before it quits while sending (`none` if it
-- does not), and what waitForNextBlock comes to.
pub record ScanTurn : Type 0 where
  pub quit : Bool
  pub best : Result ℕ
  pub quit_in_wait : Bool
  pub quit_after : Option ℕ
  pub next : Waited

-- How the loop stands: it has returned, it has panicked, it is inside waitForNextBlock, or it goes on
-- with this block, `none` for a nil pointer.
pub data Loop : Type 0 where
  stopped panicked blocked : Loop
  going : Option CommonBlock → Loop

-- if wait() != nil { return }; continue
abbrev pub wait : Bool → Option CommonBlock → Loop
wait quit block = if quit then stopped else going block

-- What follows the sending: `block, err = waitForNextBlock(block)`, which sets block to nil on an
-- error.
abbrev pub next_turn : Bool → Waited → Loop
next_turn quit (found b) = going (some b)
next_turn quit (gave_up scanner_quit) = stopped
next_turn quit (gave_up e) = wait quit none
next_turn quit waiting = blocked

-- What is sent to scannedDeposits, and how the loop goes on.
abbrev pub sent : ScanTurn → List Deposit → List Deposit × Loop
sent t dvs = elim t.quit_after [
  | none ↦ (dvs, next_turn t.quit_in_wait t.next)
  | some n ↦ (take n dvs, stopped)
]

-- What comes of a note that is sent to depositC: an answer on its ErrC (`none` for nil), a closed
-- ErrC, or the scanner quits first.
pub data Reply : Type 0 where
  replied : Option Error → Reply
  closed quitting : Reply

module _ ⦃b : Bolt⦄ where
  -- The queue is the channel scannedDeposits.
  abbrev pub Scanned : Type 0
  Scanned = Loop × List Deposit × Db

  after_scan : ScanTurn → CommonBlock → List Deposit → Result (List Deposit) × Db → Scanned
  after_scan t block queue (err scanner_quit, db) = (stopped, queue, db)
  after_scan t block queue (err e, db) = (wait t.quit_in_wait (some block), queue, db)
  after_scan t block queue (ok dvs, db) = let (dvs', l) = sent t dvs in (l, queue ++ dvs', db)

  -- With the best height: if blockHeight+ConfirmationsRequired > bestHeight, wait.
  confirmed_scan : Text → ℕ → ScanTurn → CommonBlock → ℕ → List Deposit → Db → Scanned
  unfolding after_scan
  confirmed_scan coin_type confirmations t block best queue db =
      let scanned = after_scan t block queue (scan_block block coin_type db) in
      if ltb_i64 best (add_i64 block.height confirmations)
      then (wait t.quit_in_wait (some block), queue, db)
      else scanned

  live_turn : Text → ℕ → ScanTurn → CommonBlock → List Deposit → Db → Scanned
  unfolding confirmed_scan
  live_turn coin_type confirmations t block queue db = elim t.best [
    | err e ↦ (wait t.quit_in_wait (some block), queue, db)
    | ok best ↦ confirmed_scan coin_type confirmations t block best queue db
  ]

  unfoldable pub scan_turn : Text → ℕ → ScanTurn → Option CommonBlock → List Deposit → Db → Scanned
  unfolding live_turn
  scan_turn coin_type confirmations t none queue db =
      (if t.quit then stopped else panicked, queue, db)
  scan_turn coin_type confirmations t (some block) queue db =
      let live = live_turn coin_type confirmations t block queue db in
      if t.quit then (stopped, queue, db) else live

  -- The scan goroutine over the turns that take place.
  unfoldable pub scan_loop :
      Text → ℕ → List ScanTurn → Option CommonBlock → List Deposit → Db → Scanned
  unfolding scan_turn
  scan_loop coin_type confirmations [] block queue db = (going block, queue, db)
  scan_loop coin_type confirmations (t ∷ ts) block queue db =
      let (l, queue', db') = scan_turn coin_type confirmations t block queue db in
      elim l [
        | going block' ↦ scan_loop coin_type confirmations ts block' queue' db'
        | stopped ↦ (stopped, queue', db')
        | panicked ↦ (panicked, queue', db')
        | blocked ↦ (blocked, queue', db')
      ]

  after_mark : Result (Unit {0}) × Db → Option Error × Db
  after_mark (err e, db) = (some e, db)
  after_mark (ok u, db) = (none, db)

  unfoldable pub process_deposit : Deposit → Reply → Db → Option Error × Db
  unfolding after_mark
  process_deposit dv quitting db = (some scanner_quit, db)
  process_deposit dv closed db = (none, db)
  process_deposit dv (replied (some e)) db = (some e, db)
  process_deposit dv (replied none) db = after_mark (set_deposit_processed (id dv) db)

  -- loadUnprocessedDeposits on a channel with room for all of them, with the number of deposits that
  -- are sent before the scanner quits. Beginning has the one that may wait for room.
  unfoldable pub load_unprocessed_deposits : Option ℕ → Db → Option Error × List Deposit
  load_unprocessed_deposits quit_after db = elim (get_unprocessed_deposits db) [
    | err e ↦ (some e, [])
    | ok dvs ↦ elim quit_after [ none ↦ (none, dvs) | some n ↦ (some scanner_quit, take n dvs) ]
  ]
