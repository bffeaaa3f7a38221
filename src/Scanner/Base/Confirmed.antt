-- ===== src/Scanner/Base/Confirmed.antt =====
-- Which blocks the scan loop of src/scanner/base_scanner.go scans, and where it panics.
use teller.Common.{
  ℕ, ◌+◌, ◌≤◌, ◌<◌, ◌≡◌, ◌≢◌, ◌⊎◌, inl, inr, arith, false, Bool-cases, none, some, List, ◌∷◌, ◌++◌,
  Text, ok, Error, Result-cases, scanner_quit, add_i64, ltb_i64, i64_half, u64_mod,
}
use teller.Bolt.{Bolt}
use teller.Db.{Db}
use teller.Scanner.Types.{Deposit, CommonBlock}
use teller.Scanner.Store.{scan_block}
use teller.Scanner.Blocks.Waiting.{gave_up}
use teller.Scanner.Base.{
  ScanTurn, Loop, panicked, going, next_turn, after_scan, confirmed_scan, live_turn, scan_turn,
  scan_loop,
}

-- Within the positive int64 values the test is the one of the numbers.
deep_enough :
    (height confirmations best : ℕ)
    → height + confirmations < i64_half
    → best < u64_mod
    → ltb_i64 best (add_i64 height confirmations) ≡ false
    → (height + confirmations ≤ best) × (best < i64_half)
deep_enough height confirmations best small word test = ground arith

module _ ⦃b : Bolt⦄ where
  -- A turn of the scan loop changes the database or queues deposits only when the node has
  -- answered a best height that is at least the height of the block and the confirmations
  -- required, and no negative number; the sum is taken to be below 2^63.
  pub scan_turn_confirmed :
      (coin_type : Text) (confirmations : ℕ) (t : ScanTurn) (block : CommonBlock)
      (queue : List Deposit) (db : Db) {l : Loop} {queue' : List Deposit} {db' : Db}
      → block.height + confirmations < i64_half
      → ((n : ℕ) → t.best ≡ ok n → n < u64_mod)
      → scan_turn coin_type confirmations t (some block) queue db ≡ (l, queue', db')
      → ((queue' ≡ queue) × (db' ≡ db))
        ⊎ ((best : ℕ) × (t.best ≡ ok best)
            × (block.height + confirmations ≤ best)
            × (best < i64_half))
  unfolding scan_turn live_turn confirmed_scan
  scan_turn_confirmed coin_type confirmations t block queue db small word h =
      elim (Bool-cases t.quit) [
        | inl quits ↦ inl (ground arith)
        | inr live ↦ elim (Result-cases t.best) [
          | inl (e, failed) ↦ inl (ground arith)
          | inr (best, known) ↦
              elim (Bool-cases (ltb_i64 best (add_i64 block.height confirmations))) [
                | inl shallow ↦ inl (ground arith)
                | inr deep ↦
                    let (enough, small_best) =
                      deep_enough block.height confirmations best small (word best known) deep in
                    inr (best, known, enough, small_best)
              ]
        ]
      ]

  next_turn_nil : (e : Error) → e ≢ scanner_quit → next_turn false (gave_up e) ≡ going none
  next_turn_nil e ne = ground arith

  after_scan_nil :
      (t : ScanTurn) (block : CommonBlock) (queue dvs : List Deposit) (db' : Db) (e : Error)
      → t.quit_in_wait ≡ false
      → t.quit_after ≡ none
      → t.next ≡ gave_up e
      → e ≢ scanner_quit
      → after_scan t block queue (ok dvs, db') ≡ (going none, queue ++ dvs, db')
  unfolding after_scan
  after_scan_nil t block queue dvs db' e patient all gave ne = ground (arith, next_turn_nil e ne)

  -- When a turn of the scan loop scans a block that is deep enough, sends all its deposits, and
  -- waitForNextBlock then fails with an error other than the one of quitting, and the scanner
  -- quits neither in the wait nor at the start of the next turn, the next turn panics on the nil
  -- block.
  pub failed_wait_panics :
      (coin_type : Text) (confirmations best : ℕ) (t u : ScanTurn) (later : List ScanTurn)
      (block : CommonBlock) (queue dvs : List Deposit) (db db' : Db) (e : Error)
      → t.quit ≡ false
      → t.best ≡ ok best
      → ltb_i64 best (add_i64 block.height confirmations) ≡ false
      → scan_block block coin_type db ≡ (ok dvs, db')
      → t.quit_after ≡ none
      → t.next ≡ gave_up e
      → e ≢ scanner_quit
      → t.quit_in_wait ≡ false
      → u.quit ≡ false
      → scan_loop coin_type confirmations (t ∷ u ∷ later) (some block) queue db
        ≡ (panicked, queue ++ dvs, db')
  unfolding scan_loop scan_turn live_turn confirmed_scan
  failed_wait_panics coin_type confirmations best t u later block queue dvs db db' e live known deep
        scanned all gave ne patient live2 =
      ground (arith, after_scan_nil t block queue dvs db' e patient all gave ne)
