-- ===== src/Addrs/Calls.antt =====
-- Many calls of NewAddress (src/addrs/addrs.go) on one bucket, with restarts in between.
use teller.Common.{
  ◌≡◌, subst, arith, none, List, [], ◌∷◌, Text, text_eq_iff, Result, Error, Result-cases, ok, err,
  inl, inr, All, AllDiffer, All-map,
}
use teller.Bolt.{Bolt}
use teller.Dbutil.{view}
use teller.Db.{Db, Field}
use teller.Db.Access.{put_object}
use teller.Db.Laws.{update-err}
use teller.Addrs.{put_with_tx, put, choose, chosen, taken, new_address}
use teller.Addrs.Pool.{IsField, new_address-HandsOut}

-- NewAddress on the pool as it is, or a restart, after which the pool is this one.
pub data PoolCall : Type 0 where
  take : PoolCall
  restart : List Text → PoolCall

abbrev pub handed : Result Text → List Text → List Text
handed (err e) rest = rest
handed (ok a) rest = a ∷ rest

module _ ⦃b : Bolt⦄ (bkt : Field Text) where
  -- The addresses that the calls hand out.
  unfoldable pub hand_out : List PoolCall → List Text → Db → List Text
  hand_out [] pool db = []
  hand_out (restart pool' ∷ calls) pool db = hand_out calls pool' db
  hand_out (take ∷ calls) pool db =
      let (r, pool', db') = new_address bkt pool db in handed r (hand_out calls pool' db')

  abbrev pub IsFree : Db → Text → Type 0
  IsFree db a = view (bkt.read db) a ≡ none

  taken-err :
      (pool : List Text) (x : Text) (l0 : List Text) (r : Result (Unit {0}) × Db) (db db' : Db)
      {e : Error} {l : List Text}
      → ((e' : Error) → r ≡ (err e', db') → db' ≡ db)
      → taken pool x l0 r ≡ (err e, l, db')
      → db' ≡ db
  unfolding taken
  taken-err pool x l0 (err e', d) db db' same h = same e' (ground arith)
  taken-err pool x l0 (ok u, d) db db' same h = absurd (ground arith)

  new_address-err :
      (pool : List Text) (db : Db) {e : Error} {l : List Text} {db' : Db}
      → new_address bkt pool db ≡ (err e, l, db')
      → db' ≡ db
  unfolding new_address put put_with_tx
  new_address-err pool db {e} {l} {db'} h = elim (Result-cases (chosen (choose bkt db pool))) [
    | inl (e', bad) ↦ ground arith
    | inr ((x, l0), picked) ↦
        taken-err pool x l0 (put bkt x db) db db' {e = e} {l = l}
          (λ e' f. update-err (put_object bkt x []) db f) (ground arith)
  ]

  -- Whatever calls of NewAddress are made on a bucket that is read back as it was written, also
  -- when some of them fail, and with restarts in between that give any other pool: the addresses
  -- that they hand out all differ, and none of them was used in the database at the start.
  pub hand_out-AllDiffer :
      (calls : List PoolCall) (pool : List Text) (db : Db)
      → IsField bkt
      → AllDiffer (hand_out calls pool db) × All (IsFree db) (hand_out calls pool db)
  unfolding hand_out
  hand_out-AllDiffer [] pool db field = (tt, tt)
  hand_out-AllDiffer (restart pool' ∷ calls) pool db field = hand_out-AllDiffer calls pool' db field
  hand_out-AllDiffer (take ∷ calls) pool db field =
      let (r, pool', db') = new_address bkt pool db in
      let rest = hand_out calls pool' db' in
      let ih = hand_out-AllDiffer calls pool' db' field in
      elim (Result-cases r) [
        | inl (e, bad) ↦
            let same = new_address-err pool db {e = e} {l = pool'} {db' = db'} (ground arith) in
            rw (bad) (subst (λ d. AllDiffer rest × All (IsFree d) rest) same ih)
        | inr (a, good) ↦
            let one =
              new_address-HandsOut bkt pool db {a = a} {l = pool'} {db' = db'} field
                (ground arith) in
            rw (good) (
              (
                All-map rest
                    (λ x free same. ground (arith, one.views x, free, text_eq_iff a x, same)) ih.1,
                ih.0,
              ),
              (
                one.choice.not_used,
                All-map rest (λ x free. ground (arith, one.views x, free)) ih.1,
              ),
            )
      ]
