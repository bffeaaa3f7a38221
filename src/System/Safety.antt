-- ===== src/System/Safety.antt =====
-- What holds of the database in every reachable state of the service.
use teller.Common.{
  ◌≡◌, inl, inr, arith, false, some, Option-cases, [], Text, err, Error, ℕ, bucket_not_exist,
  object_not_exist,
}
use teller.Bolt.{Bolt}
use teller.Dbutil.{view, get_bucket_object}
use teller.Db.Access.{read_only, get_object}
use teller.Scanner.Types.{Deposit, id, accepted}
use teller.Exchange.Types.{DepositInfo}
use teller.Exchange.Store.Queries.{get_kitty_bind_address, get_deposit_info_of_kitty_id}
use teller.Exchange.Facade.{is_bound, get_deposit_statuses}
use teller.System.{System, Reach}
use teller.System.Database.{IsOpen}
use teller.System.Invariant.Steps.{Reach-Inv}

module _ ⦃b : Bolt⦄ where
  -- In every state that the service, with the scanners of the coins' nodes, reaches from a
  -- database that has no deposits, no DepositInfos and nothing in kitty_deposit_seqs, a deposit
  -- that has the status DepositAccepted has its DepositInfo in the database of the exchange,
  -- under the same key and with the ID of the deposit.
  pub accepted_recorded :
      {s : System} (k : Text) (d : Deposit)
      → Reach s
      → view s.db.deposit_value k ≡ some d
      → d.status ≡ accepted
      → (di : DepositInfo) × (view s.db.deposit_info k ≡ some di) × (di.deposit_id ≡ id d)
  accepted_recorded {s} k d r there st =
      let inv = (Reach-Inv r).sound in
      elim (Option-cases (view s.db.deposit_info k)) [
        | inl gone ↦ absurd (ground (arith, inv.recorded k d there st))
        | inr (di, here) ↦ (di, here, ground (arith, inv.info_key k di here, inv.keyed k d there))
      ]

  -- In every state that the service, with the scanners of the coins' nodes, reaches from a
  -- database that has no deposits, no DepositInfos and nothing in kitty_deposit_seqs, nothing
  -- waits for the sender, and every DepositInfo of the database has the status StatusWaitDecide
  -- or StatusWaitPartial and no Txid.
  pub nothing_sent :
      {s : System}
      → Reach s
      → (s.paid ≡ [])
        × ((k : Text) (di : DepositInfo)
            → view s.db.deposit_info k ≡ some di
            → IsOpen di.status × (di.txid ≡ []))
  nothing_sent {s} r =
      let inv = Reach-Inv r in
      (inv.unpaid, λ k di h. (inv.sound.is_open k di h, inv.sound.no_txid k di h))

  -- In every state that the service, with the scanners of the coins' nodes, reaches from a
  -- database that has no deposits, no DepositInfos and nothing in kitty_deposit_seqs, whatever
  -- addresses were bound, IsBound is false for every kitty and GetDepositStatuses fails for
  -- every kitty.
  pub nothing_bound :
      {s : System} (now : ℕ) (kitty_id : Text)
      → Reach s
      → (is_bound kitty_id s.db ≡ false)
        × ((e : Error) × (get_deposit_statuses now kitty_id s.db ≡ err e))
  unfolding view is_bound get_deposit_statuses get_kitty_bind_address get_deposit_info_of_kitty_id
      read_only get_object get_bucket_object
  nothing_bound {s} now kitty_id r =
      let gone = (Reach-Inv r).sound.no_seqs kitty_id in
      elim (Option-cases s.db.kitty_deposit_seqs) [
        | inl none' ↦ (ground arith, (bucket_not_exist, ground arith))
        | inr (t, some') ↦ (ground arith, (object_not_exist, ground arith))
      ]
