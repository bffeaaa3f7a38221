-- ===== src/System/Invariant.antt =====
-- What holds in every reachable state of the service, and that single transactions keep it.
pub mod Steps
use teller.Common.{
  zero, suc, ℕ, ◌≡◌, ◌≢◌, ◌⊎◌, inl, inr, refl, sym, ap, ◌∙◌, subst, arith, Bool, true, false,
  Bool-cases, Option, none, some, Option-cases, is_some, List, [], ◌∷◌, ◌++◌, Text, text_eq,
  text_eq_iff, Result, ok, err, Error, Result-cases, All, Any, All-append, All-map, All-of, take,
  if◌then◌else◌, ◌||◌,
}
use teller.Bolt.{Bolt}
use teller.Dbutil.{view, for_each}
use teller.Dbutil.Collecting.{for_each-collect}
use teller.Db.{Db}
use teller.Db.Access.{read_only, for_each_object}
use teller.Scanner.Types.{Deposit, id, CommonBlock, not_processed}
use teller.Scanner.Store.{scan_block, get_unprocessed_deposits, set_deposit_processed}
use teller.Scanner.Store.Rescan.{PushedAll, scan_block-PushedAll}
use teller.Scanner.Store.Processed.{set_deposit_processed_failed}
use teller.Scanner.Store.Unprocessed.{get_unprocessed_deposits_iff}
use teller.Scanner.Base.{Reply, replied, process_deposit}
use teller.Scanner.Base.Marking.{process_deposit_db}
use teller.Exchange.Types.{DepositInfo, Status, is_status, wait_send, wait_confirm}
use teller.Exchange.Store.{get_or_create_deposit_info}
use teller.Exchange.Store.Queries.{keep_if, get_deposit_info_array}
use teller.Exchange.Receive.{save_incoming_deposit, receive_round, receive_bind_address}
use teller.Exchange.Receive.Rounds.{get_or_create-stored}
use teller.Exchange.Buy.{update_status, buy_round}
use teller.Exchange.Buy.Payment.{buy_round-none}
use teller.System.{
  Hand, idle, asking, answered, Pipe, new_pipe, on_answer, out_list, cut, System, set_pipe, Step,
  scan, take_next, receive, mark, buy, load, send, bind, restart, resume, IsUnused, Reach, start,
  later,
}
use teller.System.Database.{IsSound, IsOpen, scan_block-IsSound, set_deposit_processed-IsSound}
use teller.System.Growth.{get_or_create-IsSound, update_status-IsSound}
use teller.System.Kept.{
  HasDeposit, HasInfo, Grows, Grows-refl, scan_block-Grows, set_deposit_processed-Grows,
  get_or_create-Grows, update_status-Grows, SameDeposits, receive_bind_address-SameDeposits,
  same-IsSound, same-Grows,
}

module _ ⦃b : Bolt⦄ where
  -- What a pipe holds is stored: a deposit on its way, and the DepositInfo of an answered one.
  abbrev pub HandSound : Db → Hand → Type 0
  HandSound db idle = Unit {0}
  HandSound db (asking dv) = HasDeposit db (id dv)
  HandSound db (answered dv) = HasInfo db (id dv)

  abbrev pub IsQueued : Db → Deposit → Type 0
  IsQueued db d = HasDeposit db (id d)

  pub record PipeSound (db : Db) (p : Pipe) : Type 0 where
    pub queued : All (IsQueued db) p.queue
    pub held : HandSound db p.hand

  abbrev pub IsBlank : DepositInfo → Type 0
  IsBlank di = di.txid ≡ []

  pub record Inv (s : System) : Type 0 where
    pub sound : IsSound s.db
    pub piped : (c : Text) → PipeSound s.db (s.pipes c)
    pub blank : All IsBlank s.received
    pub unpaid : s.paid ≡ []

  hand-Grows : (db db' : Db) (h : Hand) → Grows db db' → HandSound db h → HandSound db' h
  hand-Grows db db' idle g x = tt
  hand-Grows db db' (asking dv) g x = g.deposits (id dv) x
  hand-Grows db db' (answered dv) g x = g.infos (id dv) x

  pub pipe-Grows : (db db' : Db) (p : Pipe) → Grows db db' → PipeSound db p → PipeSound db' p
  pipe-Grows db db' p g x = record {
    queued = All-map p.queue (λ d h. g.deposits (id d) h) x.queued;
    held = hand-Grows db db' p.hand g x.held;
  }

  -- One pipe is new, and the database has grown.
  pub pipes_set :
      (db db' : Db) (c : Text) (p : Pipe) (pipes : Text → Pipe)
      → Grows db db'
      → ((d : Text) → PipeSound db (pipes d))
      → PipeSound db' p
      → (d : Text) → PipeSound db' (set_pipe c p pipes d)
  pipes_set db db' c p pipes g old new d = elim (Bool-cases (text_eq c d)) [
    | inl here ↦ rw here new
    | inr other ↦ rw other (pipe-Grows db db' (pipes d) g (old d))
  ]

  pub All-cut :
      {A : Type 0} (P : A → Type 0) (sent : Option ℕ) (l : List A) → All P l → All P (cut sent l)
  All-cut P none l a = a
  All-cut P (some n) l a = All-take n l a
    where
      All-take : (n : ℕ) (l : List _) → All P l → All P (take n l)
      All-take zero l a = tt
      All-take (suc n) [] a = tt
      All-take (suc n) (x ∷ l) a = (a.0, All-take n l a.1)

  pub pushed-IsQueued :
      (pushed dvs : List Deposit) (db db' : Db)
      → PushedAll dvs pushed db db'
      → All (IsQueued db') pushed
  pushed-IsQueued pushed dvs db db' p = All-map pushed (λ d h. ground (arith, h.1)) p.new

  set_deposit_processed_by :
      (k : Text) (db : Db) (r : Result (Unit {0}) × Db)
      → IsSound db
      → HasInfo db k
      → set_deposit_processed k db ≡ r
      → IsSound r.1 × Grows db r.1
  set_deposit_processed_by k db (ok u, db') inv there h =
      (set_deposit_processed-IsSound k db inv there h, set_deposit_processed-Grows k db h)
  set_deposit_processed_by k db (err e, db') inv there h =
      let same = set_deposit_processed_failed k db h in (rw same inv, rw same (Grows-refl db))

  pub marked-IsSound :
      (dv : Deposit) (db : Db) {e : Option Error} {db' : Db}
      → IsSound db
      → HasInfo db (id dv)
      → process_deposit dv (replied none) db ≡ (e, db')
      → IsSound db' × Grows db db'
  marked-IsSound dv db {e} {db'} inv there h =
      let last : (set_deposit_processed (id dv) db).1 ≡ db' =
        sym (process_deposit_db dv db) ∙ ap (λ (x : Option Error × Db). x.1) h in
      subst (λ x. IsSound x × Grows db x) last
        (set_deposit_processed_by (id dv) db (set_deposit_processed (id dv) db) inv there refl)

  -- A round of the receiver on a deposit that is stored.
  pub received-IsSound :
      (now : ℕ) (dv : Deposit) (db : Db) (r : Result DepositInfo × Db) {answer : Option Error}
      {out : Option DepositInfo} {db' : Db}
      → IsSound db
      → HasDeposit db (id dv)
      → get_or_create_deposit_info now dv db ≡ r
      → receive_round now dv db ≡ (answer, out, db')
      → IsSound db'
        × Grows db db'
        × HandSound db' (on_answer answer dv)
        × All IsBlank (out_list out)
  unfolding receive_round save_incoming_deposit
  received-IsSound now dv db (err e, db1) {answer} {out} {db'} inv there got h =
      let same : db1 ≡ db' = ground arith in
      let said : some e ≡ answer = ground arith in
      let sent : none ≡ out = ground arith in
      (
        subst IsSound same (get_or_create-IsSound now dv db (err e, db1) inv there got),
        subst (Grows db) same (get_or_create-Grows now dv db (err e, db1) got),
        rw (← said) tt,
        rw (← sent) tt,
      )
  received-IsSound now dv db (ok di, db1) {answer} {out} {db'} inv there got h =
      let same : db1 ≡ db' = ground arith in
      let said : none ≡ answer = ground arith in
      let sent : some di ≡ out = ground arith in
      let sound1 = get_or_create-IsSound now dv db (ok di, db1) inv there got in
      let stored = get_or_create-stored now dv db got in
      (
        subst IsSound same sound1,
        subst (Grows db) same (get_or_create-Grows now dv db (ok di, db1) got),
        rw (← said, ← same) (ground (arith, stored)),
        rw (← sent) ((sound1.no_txid (id dv) di stored, tt)),
      )
