-- ===== src/Exchange/Receive/Rounds.antt =====
-- What runReadMultiplexer (src/exchange/receiver.go) has stored of the deposits that it answers.
use teller.Common.{
  ℕ, ◌≡◌, inl, inr, refl, sym, subst, arith, Option, some, none, Option-cases, List, [], ◌∷◌, Text,
  text_eq_iff, Result, ok, err, Error,
}
use teller.Bolt.{Bolt}
use teller.Dbutil.{view}
use teller.Db.{Db}
use teller.Db.Laws.{update-ok, update-err}
use teller.Scanner.Types.{Deposit, id}
use teller.Exchange.Types.{DepositInfo}
use teller.Exchange.Store.{get_or_create_tx, get_or_create_deposit_info}
use teller.Exchange.Store.Recording.{
  get_or_create-Created, get_or_create_tx-stored, get_or_create_tx_known,
}
use teller.Exchange.Receive.{save_incoming_deposit, receive_round, run_read_multiplexer}

abbrev pub Answer : Type 0
Answer = Option Error × Option DepositInfo

module _ ⦃b : Bolt⦄ where
  -- Each deposit that was answered with nil was sent on as it is stored now; the others were not sent.
  abbrev pub Saved : List (ℕ × Deposit) → List Answer → Db → Type 0
  Saved [] [] db = Unit {0}
  Saved [] (a ∷ answers) db = ⊥
  Saved (n ∷ notes) [] db = ⊥
  Saved (n ∷ notes) ((none, out) ∷ answers) db =
      ((di : DepositInfo) × (out ≡ some di) × (view db.deposit_info (id n.1) ≡ some di))
      × Saved notes answers db
  Saved (n ∷ notes) ((some e, out) ∷ answers) db = (out ≡ none) × Saved notes answers db

  pub get_or_create-stored :
      (now : ℕ) (dv : Deposit) (db : Db) {di : DepositInfo} {db' : Db}
      → get_or_create_deposit_info now dv db ≡ (ok di, db')
      → view db'.deposit_info (id dv) ≡ some di
  unfolding get_or_create_deposit_info
  get_or_create-stored now dv db h =
      get_or_create_tx-stored now dv db (update-ok (get_or_create_tx now dv) db h)

  pub get_or_create_unchanged :
      (now : ℕ) (dv : Deposit) (db : Db) {old di : DepositInfo} {db' : Db}
      → view db.deposit_info (id dv) ≡ some old
      → get_or_create_deposit_info now dv db ≡ (ok di, db')
      → db' ≡ db
  unfolding get_or_create_deposit_info
  get_or_create_unchanged now dv db there h =
      ground
        (arith, update-ok (get_or_create_tx now dv) db h, get_or_create_tx_known now dv db there)

  pub get_or_create_failed :
      (now : ℕ) (dv : Deposit) (db : Db) {e : Error} {db' : Db}
      → get_or_create_deposit_info now dv db ≡ (err e, db')
      → db' ≡ db
  unfolding get_or_create_deposit_info
  get_or_create_failed now dv db h = update-err (get_or_create_tx now dv) db h

  get_or_create_keeps :
      (now : ℕ) (dv : Deposit) (db : Db) (r : Result DepositInfo × Db) (j : Text)
      (old : DepositInfo)
      → get_or_create_deposit_info now dv db ≡ r
      → view db.deposit_info j ≡ some old
      → view r.1.deposit_info j ≡ some old
  get_or_create_keeps now dv db (err e, db') j old h k =
      ground (arith, get_or_create_failed now dv db h)
  get_or_create_keeps now dv db (ok di, db') j old h k =
      elim (Option-cases (view db.deposit_info (id dv))) [
        | inl absent ↦
            let c = get_or_create-Created now dv db absent h in
            ground (arith, c.infos j, text_eq_iff (id dv) j)
        | inr (known, there) ↦ ground (arith, get_or_create_unchanged now dv db there h)
      ]

  round_keeps :
      (now : ℕ) (dv : Deposit) (db : Db) (j : Text) (old : DepositInfo)
      → view db.deposit_info j ≡ some old
      → view (receive_round now dv db).2.deposit_info j ≡ some old
  unfolding receive_round save_incoming_deposit
  round_keeps now dv db j old k =
      ground
        (arith, get_or_create_keeps now dv db (get_or_create_deposit_info now dv db) j old refl k)

  rounds_keep :
      (notes : List (ℕ × Deposit)) (db : Db) (j : Text) (old : DepositInfo)
      → view db.deposit_info j ≡ some old
      → view (run_read_multiplexer notes db).1.deposit_info j ≡ some old
  unfolding run_read_multiplexer
  rounds_keep [] db j old k = k
  rounds_keep ((now, dv) ∷ notes) db j old k =
      rounds_keep notes (receive_round now dv db).2 j old (round_keeps now dv db j old k)

  run_cons :
      (now : ℕ) (dv : Deposit) (notes : List (ℕ × Deposit)) (db : Db) {answer : Option Error}
      {out : Option DepositInfo} {db1 : Db}
      → receive_round now dv db ≡ (answer, out, db1)
      → run_read_multiplexer ((now, dv) ∷ notes) db
        ≡ ((answer, out) ∷ (run_read_multiplexer notes db1).0, (run_read_multiplexer notes db1).1)
  unfolding run_read_multiplexer
  run_cons now dv notes db h = rw h

  cons-Saved :
      (now : ℕ) (dv : Deposit) (notes : List (ℕ × Deposit)) (db : Db) (r : Result DepositInfo × Db)
      → get_or_create_deposit_info now dv db ≡ r
      → Saved notes (run_read_multiplexer notes r.1).0 (run_read_multiplexer notes r.1).1
      → Saved
          ((now, dv) ∷ notes)
          (run_read_multiplexer ((now, dv) ∷ notes) db).0
          (run_read_multiplexer ((now, dv) ∷ notes) db).1
  unfolding receive_round save_incoming_deposit
  cons-Saved now dv notes db (err e, db1) h later =
      subst (λ p. Saved ((now, dv) ∷ notes) p.0 p.1)
        (sym (run_cons now dv notes db {answer = some e} {out = none} {db1 = db1} (ground arith)))
        (refl, later)
  cons-Saved now dv notes db (ok di, db1) h later =
      subst (λ p. Saved ((now, dv) ∷ notes) p.0 p.1)
        (sym (run_cons now dv notes db {answer = none} {out = some di} {db1 = db1} (ground arith)))
        ((di, refl, rounds_keep notes db1 (id dv) di (get_or_create-stored now dv db h)), later)

  -- Whatever deposits arrive, in any state of the database: each one that runReadMultiplexer
  -- answers with nil was handed on as a DepositInfo that is stored under the ID of the deposit
  -- when all of them are through, and those that it answers with an error were not handed on.
  pub run_read_multiplexer-Saved :
      (notes : List (ℕ × Deposit)) (db : Db)
      → Saved notes (run_read_multiplexer notes db).0 (run_read_multiplexer notes db).1
  unfolding run_read_multiplexer
  run_read_multiplexer-Saved [] db = tt
  run_read_multiplexer-Saved ((now, dv) ∷ notes) db =
      let r = get_or_create_deposit_info now dv db in
      cons-Saved now dv notes db r refl (run_read_multiplexer-Saved notes r.1)
