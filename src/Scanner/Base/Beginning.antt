-- ===== src/Scanner/Base/Beginning.antt =====
-- How Run of src/scanner/base_scanner.go begins: the deposits that are not processed go into the
-- channel scannedDeposits, which nothing reads before the initial block has been loaded.
use teller.Common.{
  ℕ, zero, suc, ◌≡◌, refl, sym, ◌∙◌, ◌↔◌, ◌≤◌, ◌<◌, ◌==◌, arith, Option, none, some, List, [], ◌∷◌,
  length, Result, ok, err, Error, if◌then◌else◌,
}
use teller.Bolt.{Bolt}
use teller.Db.{Db}
use teller.Scanner.Types.{Deposit, CommonBlock}
use teller.Scanner.Store.{get_unprocessed_deposits}

-- Config of btc.go
pub record ScanConfig : Type 0 where
  pub scan_period : ℕ  -- nanoseconds
  pub deposit_buffer_size : ℕ  -- int, not negative
  pub initial_scan_height : ℕ  -- int64
  pub confirmations_required : ℕ  -- int64

-- The defaults of NewBaseScanner.
unfoldable pub with_defaults : ScanConfig → ScanConfig
with_defaults cfg = record cfg {
  scan_period = if cfg.scan_period == 0 then 5000000000 else cfg.scan_period;
  deposit_buffer_size = if cfg.deposit_buffer_size == 0 then 100 else cfg.deposit_buffer_size;
}

-- The loop of loadUnprocessedDeposits: it has sent them all, it has seen the wish to quit, or it
-- waits for room in the channel.
pub data Filled : Type 0 where
  all_sent quitted no_room : Filled

-- The scanner quits after so many deposits, `none` for never; then the room that the channel has.
unfoldable pub fill : Option ℕ → ℕ → List Deposit → Filled
fill q room [] = all_sent
fill none zero (dv ∷ dvs) = no_room
fill none (suc room) (dv ∷ dvs) = fill none room dvs
fill (some n) zero (dv ∷ dvs) = quitted
fill (some zero) (suc room) (dv ∷ dvs) = quitted
fill (some (suc n)) (suc room) (dv ∷ dvs) = fill (some n) room dvs

-- Run has returned, it waits for room, or its goroutines go on from this block with this channel.
pub data Begun : Type 0 where
  returned : Option Error → Begun
  waits : Begun
  scanning : CommonBlock → List Deposit → Begun

unfoldable pub after_fill : Result CommonBlock → List Deposit → Filled → Begun
after_fill initial dvs quitted = returned none
after_fill initial dvs no_room = waits
after_fill (err e) dvs all_sent = returned (some e)
after_fill (ok block) dvs all_sent = scanning block dvs

fill_iff :
    (room : ℕ) (dvs : List Deposit)
    → ((fill none room dvs ≡ all_sent) ↔ (length dvs ≤ room))
      × ((fill none room dvs ≡ no_room) ↔ (room < length dvs))
unfolding fill
fill_iff zero [] = ((λ h. ground arith, λ h. ground arith), (λ h. ground arith, λ h. ground arith))
fill_iff (suc room) [] =
    ((λ h. ground arith, λ h. ground arith), (λ h. ground arith, λ h. ground arith))
fill_iff zero (dv ∷ dvs) =
    ((λ h. ground arith, λ h. ground arith), (λ h. ground arith, λ h. ground arith))
fill_iff (suc room) (dv ∷ dvs) =
    let ih = fill_iff room dvs in
    (
      (λ h. ground (arith, ih.0.0 h), λ h. ih.0.1 (ground arith)),
      (λ h. ground (arith, ih.1.0 h), λ h. ih.1.1 (ground arith)),
    )

after_fill_iff :
    (block : CommonBlock) (dvs : List Deposit) (f : Filled)
    → ((after_fill (ok block) dvs f ≡ scanning block dvs) ↔ (f ≡ all_sent))
      × ((after_fill (ok block) dvs f ≡ waits) ↔ (f ≡ no_room))
unfolding after_fill
after_fill_iff block dvs f =
    ((λ h. ground arith, λ h. ground arith), (λ h. ground arith, λ h. ground arith))

module _ ⦃b : Bolt⦄ where
  -- With what getBlockAtHeight answers for the initial height.
  unfoldable pub begin : Option ℕ → ScanConfig → Result CommonBlock → Db → Begun
  begin q cfg initial db = elim (get_unprocessed_deposits db) [
    | err e ↦ returned (some e)
    | ok dvs ↦ after_fill initial dvs (fill q cfg.deposit_buffer_size dvs)
  ]

  -- When the deposits that are not processed can be read, the initial block is loaded, and
  -- nobody asks to quit, Run of the base scanner goes on to its goroutines, with these deposits
  -- in the channel, exactly when they are no more than DepositBufferSize; with more of them it
  -- waits for room in the channel, from which nothing reads yet.
  pub begin_iff :
      (cfg : ScanConfig) (block : CommonBlock) (db : Db) {dvs : List Deposit}
      → get_unprocessed_deposits db ≡ ok dvs
      → ((begin none cfg (ok block) db ≡ scanning block dvs)
          ↔ (length dvs ≤ cfg.deposit_buffer_size))
        × ((begin none cfg (ok block) db ≡ waits) ↔ (cfg.deposit_buffer_size < length dvs))
  unfolding begin
  begin_iff cfg block db {dvs} h =
      let f = fill none cfg.deposit_buffer_size dvs in
      let room = fill_iff cfg.deposit_buffer_size dvs in
      let after = after_fill_iff block dvs f in
      let same : begin none cfg (ok block) db ≡ after_fill (ok block) dvs f = rw (begin, h) refl in
      (
        (λ e. room.0.0 (after.0.0 (sym same ∙ e)), λ l. same ∙ after.0.1 (room.0.1 l)),
        (λ e. room.1.0 (after.1.0 (sym same ∙ e)), λ l. same ∙ after.1.1 (room.1.1 l)),
      )
