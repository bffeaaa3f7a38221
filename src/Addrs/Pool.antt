-- ===== src/Addrs/Pool.antt =====
-- What a pool of addresses hands out (src/addrs/addrs.go).
use teller.Common.{
  ◌≡◌, ◌≢◌, refl, ap, ◌∙◌, arith, Bool, true, false, Result-cases, Option, none, some, [], ◌∷◌,
  ◌++◌, List, Text, text_eq, text_eq_iff, Result, ok, err, Error, inl, inr, ◌⊎◌, if◌then◌else◌,
  is_some, All,
}
use teller.Bolt.{Bolt}
use teller.Dbutil.{view}
use teller.Db.{Db, Field}
use teller.Db.Access.{has_key, put_object, read_only}
use teller.Db.Laws.{has_key-ok, put_object-ok, update-ok}
use teller.Addrs.{put_with_tx, put, is_used, choose, chosen, taken, new_address}

module _ ⦃b : Bolt⦄ where
  is_used-ok :
      (bkt : Field Text) (a : Text) (db : Db) {used : Bool}
      → is_used bkt a db ≡ ok used
      → is_some (view (bkt.read db) a) ≡ used
  unfolding is_used read_only
  is_used-ok bkt a db {used} h = elim (Result-cases (has_key bkt a db)) [
    | inl (e, bad) ↦ absurd (ground arith)
    | inr ((q, db1), e) ↦ ground (arith, has_key-ok bkt a db e)
  ]

  -- The pool is made of used addresses, the one chosen, which is not used, and the rest.
  pub record Chosen (bkt : Field Text) (db : Db) (pool : List Text) (a : Text) (l : List Text)
      : Type 0 where
    pub passed : List Text
    pub parts : pool ≡ passed ++ (a ∷ l)
    pub all_used : All (λ (x : Text). is_some (view (bkt.read db) x) ≡ true) passed
    pub not_used : view (bkt.read db) a ≡ none

  unused : {A : Type 0} (o : Option A) → is_some o ≡ false → o ≡ none
  unused none h = refl
  unused (some x) h = cc

  used_cases : (r : Result Bool) → ((e : Error) × (r ≡ err e)) ⊎ ((r ≡ ok true) ⊎ (r ≡ ok false))
  used_cases (err e) = inl (e, refl)
  used_cases (ok true) = inr (inl refl)
  used_cases (ok false) = inr (inr refl)

  pub choose-Chosen :
      (bkt : Field Text) (db : Db) (pool : List Text) {a : Text} {l : List Text}
      → choose bkt db pool ≡ ok (some (a, l))
      → Chosen bkt db pool a l
  unfolding choose
  choose-Chosen bkt db [] h = absurd (ground arith)
  choose-Chosen bkt db (x ∷ pool) {a} {l} h = elim (used_cases (is_used bkt x db)) [
    | inl (e, bad) ↦ absurd (ground arith)
    | inr (inl used) ↦
        let c = choose-Chosen bkt db pool {a = a} {l = l} (ground arith) in
        record {
          passed = x ∷ c.passed;
          parts = ap (◌∷◌ x) c.parts;
          all_used = (is_used-ok bkt x db used, c.all_used);
          not_used = c.not_used;
        }
    | inr (inr free) ↦
        let same_a : x ≡ a = ground arith in
        let same_l : pool ≡ l = ground arith in
        record {
          passed = [];
          parts = ground arith;
          all_used = tt;
          not_used = rw (← same_a) (unused (view (bkt.read db) x) (is_used-ok bkt x db free));
        }
  ]

  -- What is written to the bucket is read back from it.
  abbrev pub IsField : Field Text → Type 0
  IsField bkt = (db : Db) (t : b.Bucket Text) → bkt.read (bkt.write db t) ≡ some t

  -- NewAddress has handed out an address: the first of the pool that was not used, which is now
  -- used; the pool keeps those behind it, and no used address has become free.
  pub record HandsOut (bkt : Field Text) (pool : List Text) (db : Db) (a : Text) (l : List Text)
      (db' : Db) : Type 0 where
    pub choice : Chosen bkt db pool a l
    pub not_blank : a ≢ []
    pub views :
        (j : Text) → view (bkt.read db') j ≡ (if text_eq a j then some [] else view (bkt.read db) j)

  chosen-ok :
      (r : Result (Option (Text × List Text))) {a : Text} {l : List Text}
      → chosen r ≡ ok (a, l)
      → r ≡ ok (some (a, l))
  unfolding chosen
  chosen-ok (err e) h = absurd (ground arith)
  chosen-ok (ok none) h = absurd (ground arith)
  chosen-ok (ok (some (x, l))) h = ground arith

  taken-ok :
      (pool : List Text) (x : Text) (l0 : List Text) (r : Result (Unit {0}) × Db) {a : Text}
      {l : List Text} {db' : Db}
      → taken pool x l0 r ≡ (ok a, l, db')
      → (r ≡ (ok tt, db')) × (x ≡ a) × (l0 ≡ l)
  unfolding taken
  taken-ok pool x l0 (err e, db) h = absurd (ground arith)
  taken-ok pool x l0 (ok u, db) h = (ground arith, ground arith, ground arith)

  -- When NewAddress succeeds, on a bucket that is read back as it was written, the pool was made
  -- of addresses that were used, then the address handed out, which was not used and is not
  -- blank, then the new pool; the address is used now and every other key of the bucket is as it
  -- was.
  pub new_address-HandsOut :
      (bkt : Field Text) (pool : List Text) (db : Db) {a : Text} {l : List Text} {db' : Db}
      → IsField bkt
      → new_address bkt pool db ≡ (ok a, l, db')
      → HandsOut bkt pool db a l db'
  unfolding new_address put put_with_tx
  new_address-HandsOut bkt pool db {a} {l} {db'} field h =
      elim (Result-cases (chosen (choose bkt db pool))) [
        | inl (e, bad) ↦ absurd (ground arith)
        | inr ((x, l0), picked) ↦
            let step : taken pool x l0 (put bkt x db) ≡ (ok a, l, db') = ground arith in
            let (wrote, same_a, same_l) = taken-ok pool x l0 (put bkt x db) step in
            let (t, at', views, ne) =
              put_object-ok bkt x [] db (update-ok (put_object bkt x []) db wrote) in
            let c = choose-Chosen bkt db pool (chosen-ok (choose bkt db pool) picked) in
            let moved : Chosen bkt db pool a l = rw (← same_a, ← same_l) c in
            record {
              choice = moved;
              not_blank = λ blank. ne (same_a ∙ blank);
              views = λ j. ground (arith, views j, field db t, same_a);
            }
      ]

  -- When NewAddress succeeds and is called again on the database it leaves, with any pool, on a
  -- bucket that is read back as it was written, and succeeds, the two addresses differ.
  pub new_address_distinct :
      (bkt : Field Text) (pool pool' : List Text) (db : Db) {a a' : Text} {l l' : List Text}
      {db1 db2 : Db}
      → IsField bkt
      → new_address bkt pool db ≡ (ok a, l, db1)
      → new_address bkt pool' db1 ≡ (ok a', l', db2)
      → a ≢ a'
  new_address_distinct bkt pool pool' db {a} {a'} field first second same =
      let one = new_address-HandsOut bkt pool db field first in
      let two = new_address-HandsOut bkt pool' _ field second in
      absurd (ground (arith, one.views a', two.choice.not_used, text_eq_iff a a'))
