-- ===== src/System/Stages.antt =====
-- How far a deposit has come in the service, and how it may go on.
pub mod Moves
pub mod Refined
use teller.Common.{
  ◌≡◌, ◌≢◌, ◌⊎◌, Bool-cases, List, [], ◌∷◌, inl, inr, refl, sym, ap, ◌∙◌, subst, arith, true,
  Option, none, some, Option-cases, is_some, Text, text_eq, text_eq_iff, Result, Result-cases, ok,
  err, Error, ℕ,
}
use teller.Bolt.{Bolt}
use teller.Dbutil.{view}
use teller.Db.{Db}
use teller.Scanner.Types.{
  Deposit, id, CommonBlock, DepositStatus, unset, not_processed, rejected, accepted,
}
use teller.Scanner.Store.{scan_block, set_deposit_processed}
use teller.Scanner.Store.Rescan.{scan_block-PushedAll}
use teller.Scanner.Store.Origin.{scan_block-origin}
use teller.Scanner.Store.Processed.{set_deposit_processed-Marked, set_deposit_processed_failed}
use teller.Scanner.Base.Marking.{process_deposit_db}
use teller.Exchange.Types.{DepositInfo}
use teller.Exchange.Store.{get_or_create_deposit_info}
use teller.Exchange.Store.Recording.{get_or_create-Created}
use teller.Exchange.Receive.{receive_round, save_incoming_deposit}
use teller.Exchange.Receive.Rounds.{get_or_create_unchanged, get_or_create_failed}
use teller.Exchange.Buy.{update_status, buy_round}
use teller.Exchange.Buy.Payment.{update_status-PartlyPaid}
use teller.System.{
  asking, answered, System, Step, scan, take_next, receive, mark, buy, load, send, bind, restart,
  resume, Reach,
}
use teller.System.Database.{IsSound}
use teller.System.Growth.{update_status_failed}
use teller.System.Kept.{HasDeposit, HasInfo, receive_bind_address-SameDeposits}
use teller.System.Invariant.{HandSound, IsBlank}
use teller.System.Invariant.Steps.{Reach-Inv}
use teller.Common.{All}

-- Not seen on chain; stored by the scanner; recorded by the exchange; and marked by the scanner as
-- processed.
pub data Stage : Type 0 where
  unseen scanned recorded finished : Stage

abbrev pub finished_or : Stage → DepositStatus → Stage
finished_or s unset = s
finished_or s not_processed = s
finished_or s rejected = s
finished_or s accepted = finished

unfoldable pub stage_of : Option Deposit → Option DepositInfo → Stage
stage_of none none = unseen
stage_of none (some di) = recorded
stage_of (some d) none = finished_or scanned d.status
stage_of (some d) (some di) = finished_or recorded d.status

-- The specification: a deposit stays where it is, or takes one of three moves.
pub data Advance : Stage → Stage → Type 0 where
  stay : (s : Stage) → Advance s s
  detect : Advance unseen scanned
  record_it : Advance scanned recorded
  finish : Advance recorded finished

module _ ⦃b : Bolt⦄ where
  abbrev pub stage : Db → Text → Stage
  stage db k = stage_of (view db.deposit_value k) (view db.deposit_info k)

  pub stays :
      {v v' : Option Deposit} {i i' : Option DepositInfo}
      → v' ≡ v
      → i' ≡ i
      → Advance (stage_of v i) (stage_of v' i')
  stays {v} {v'} {i} {i'} hv hi = rw (hv, hi) (stay (stage_of v i))

  pub scanned_next :
      (v v' : Option Deposit) (i : Option DepositInfo)
      → (is_some i ≡ true → is_some v ≡ true)
      → ((d : Deposit) → v ≡ some d → v' ≡ some d)
      → ((d : Deposit) → v' ≡ some d → (v ≡ some d) ⊎ (d.status ≡ not_processed))
      → Advance (stage_of v i) (stage_of v' i)
  unfolding stage_of
  scanned_next (some d) v' i seen kept origin = rw (kept d refl) (stay (stage_of (some d) i))
  scanned_next none none i seen kept origin = stay (stage_of none i)
  scanned_next none (some d) none seen kept origin = elim (origin d refl) [
    | inl old ↦ absurd (ground arith)
    | inr new ↦ rw new detect
  ]
  scanned_next none (some d) (some di) seen kept origin = absurd (ground (arith, seen refl))

  status_recorded :
      (st : DepositStatus)
      → st ≢ accepted
      → Advance (finished_or scanned st) (finished_or recorded st)
  status_recorded unset h = record_it
  status_recorded not_processed h = record_it
  status_recorded rejected h = record_it
  status_recorded accepted h = absurd (h refl)

  status_finished : (st : DepositStatus) → Advance (finished_or recorded st) finished
  status_finished unset = finish
  status_finished not_processed = finish
  status_finished rejected = finish
  status_finished accepted = stay finished

  pub recorded_next :
      (v : Option Deposit) (di : DepositInfo)
      → is_some v ≡ true
      → ((d : Deposit) → v ≡ some d → d.status ≢ accepted)
      → Advance (stage_of v none) (stage_of v (some di))
  unfolding stage_of
  recorded_next none di there open' = absurd (ground arith)
  recorded_next (some d) di there open' = status_recorded d.status (open' d refl)

  pub finished_next :
      (d : Deposit) (i : Option DepositInfo)
      → is_some i ≡ true
      → Advance (stage_of (some d) i) (stage_of (some (record d { status = accepted })) i)
  unfolding stage_of
  finished_next d none there = absurd (ground arith)
  finished_next d (some di) there = status_finished d.status

  pub still_recorded :
      (v : Option Deposit) (di x : DepositInfo)
      → Advance (stage_of v (some di)) (stage_of v (some x))
  unfolding stage_of
  still_recorded none di x = stay recorded
  still_recorded (some d) di x = stay (finished_or recorded d.status)

  abbrev pub AllAdvance : Db → Db → Type 0
  AllAdvance db db' = (k : Text) → Advance (stage db k) (stage db' k)
