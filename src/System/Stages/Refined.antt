-- ===== src/System/Stages/Refined.antt =====
-- The steps of the service refine the stages of a deposit.
use teller.Common.{
  ◌≡◌, ◌∷◌, inl, inr, refl, sym, ap, ◌∙◌, subst, arith, Option, Result-cases, Error, ℕ,
}
use teller.Bolt.{Bolt}
use teller.Dbutil.{view}
use teller.Db.{Db}
use teller.Scanner.Types.{Deposit, id}
use teller.Scanner.Store.{set_deposit_processed}
use teller.Scanner.Base.Marking.{process_deposit_db}
use teller.Exchange.Types.{DepositInfo}
use teller.Exchange.Store.{get_or_create_deposit_info}
use teller.Exchange.Receive.{receive_round, save_incoming_deposit}
use teller.Exchange.Buy.{update_status, buy_round}
use teller.System.{
  asking, answered, System, Step, scan, take_next, receive, mark, buy, reload, load, flush, send,
  bind, elsewhere, restart, resume, Reach,
}
use teller.System.Kept.{receive_bind_address-SameDeposits}
use teller.System.Invariant.{HandSound, IsBlank}
use teller.System.Invariant.Steps.{Reach-Inv}
use teller.Common.{All}
use teller.System.Stages.{stays, AllAdvance}
use teller.System.Stages.Moves.{
  all_stay, scan_advances, record_advances, mark_advances, pay_advances,
}

module _ ⦃b : Bolt⦄ where
  receive_round_db :
      (now : ℕ) (dv : Deposit) (db : Db)
      → (receive_round now dv db).2 ≡ (get_or_create_deposit_info now dv db).1
  unfolding receive_round save_incoming_deposit
  receive_round_db now dv db = elim (Result-cases (get_or_create_deposit_info now dv db).0) [
    | inl (e, bad) ↦ ground arith
    | inr (di, good) ↦ ground arith
  ]

  -- In every state that the service, with the scanners of the coins' nodes, reaches from a
  -- database that has no deposits, no DepositInfos and nothing in kitty_deposit_seqs, and for
  -- every ID, a step of the service (a scan, a move of a deposit between the scanner, the
  -- exchange and the sender, a payment, a binding, a restart, what the scanner and the receiver
  -- load again after it, a write of the agent or of the pools to their own buckets) leaves the
  -- stage of the deposit as it is or moves it on by one: from unseen to scanned, from there to
  -- recorded by the exchange, and from there to finished, which is that the scanner has marked
  -- it as processed.
  pub Step-Advance : {s t : System} → Reach s → Step s t → AllAdvance s.db t.db
  unfolding buy_round
  Step-Advance {s} r (scan c block sent h) = scan_advances block c s.db (Reach-Inv r).sound h
  Step-Advance {s} r (take_next c dv rest h) = all_stay s.db
  Step-Advance {s} r (receive c now dv {db' = db'} asked h) =
      let inv = Reach-Inv r in
      let there : HandSound s.db (asking dv) = subst (HandSound s.db) asked (inv.piped c).held in
      subst (AllAdvance s.db)
        (sym (receive_round_db now dv s.db)
          ∙ ap (λ (x : Option Error × Option DepositInfo × Db). x.2) h)
        (record_advances now dv s.db (get_or_create_deposit_info now dv s.db) inv.sound there refl)
  Step-Advance {s} r (mark c dv {db' = db'} got h) =
      let there : HandSound s.db (answered dv) =
        subst (HandSound s.db) got ((Reach-Inv r).piped c).held in
      subst (AllAdvance s.db)
        (sym (process_deposit_db dv s.db) ∙ ap (λ (x : Option Error × Db). x.1) h)
        (mark_advances (id dv) s.db (set_deposit_processed (id dv) s.db) there refl)
  Step-Advance {s} r (buy now di rest next h) =
      let blank : All IsBlank (di ∷ rest) = subst (All IsBlank) next (Reach-Inv r).blank in
      subst (AllAdvance s.db) (ap (λ (x : Option DepositInfo × Db). x.1) h)
        (pay_advances now di s.db (update_status now di s.db) blank.0 refl)
  Step-Advance {s} r (load queued h h') = all_stay s.db
  Step-Advance {s} r (reload queued h) = all_stay s.db
  Step-Advance {s} r (flush di rest next) = all_stay s.db
  Step-Advance {s} r (elsewhere reservations users owners btc sky) = all_stay s.db
  Step-Advance {s} r (send di rest rounds next) = absurd (ground (arith, (Reach-Inv r).unpaid))
  Step-Advance {s} r (bind coins kitty_id addr c h) =
      let same = receive_bind_address-SameDeposits coins kitty_id addr c s.db h in
      λ k. stays (ap (λ t. view t k) same.values) (ap (λ t. view t k) same.infos)
  Step-Advance {s} r restart = all_stay s.db
  Step-Advance {s} r (resume c sent h) = all_stay s.db
