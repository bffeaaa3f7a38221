-- ===== src/Db/Laws.antt =====
-- The calls of `Access` through the views of the buckets: what one that went through has read and
-- written, and that a transaction is all or nothing.
use teller.Common.{
  ℕ, ◌<◌, ◌≡◌, ◌≢◌, refl, ap, sym, ◌∙◌, Bool, true, Option, some, [], Text, Result, ok, err, Error,
  is_some, arith, text_eq, if◌then◌else◌, Result-cases, inl, inr,
}
use teller.Common.Txs.{Tx, ◌>>=◌, bind_then}
use teller.Bolt.{Bolt}
use teller.Dbutil.{get_bucket_object, put_bucket_value, bucket_has_key, next_sequence, view}
use teller.Dbutil.Laws.{
  get_bucket_object-ok, get_bucket_object-some, get_bucket_object-not_exist, view-put, put-blank,
  bucket_has_key-ok, view-next_sequence, next_sequence-pos,
}
use teller.Db.{Db, Field}
use teller.Db.Access.{get_object, find_object, put_object, has_key, next_seq, update}

module _ ⦃b : Bolt⦄ where
  module _ {V : Type 0} (f : Field V) where
    pub get_object-ok :
        (k : Text) (db : Db) {v : V} {db' : Db}
        → get_object f k db ≡ ok (v, db')
        → (view (f.read db) k ≡ some v) × (db' ≡ db)
    unfolding get_object
    get_object-ok k db {v} h = (get_bucket_object-ok (f.read db) k v (ground arith), ground arith)

    find_cases :
        (k : Text) (db : Db) (r : Result V) {o : Option V} {db' : Db}
        → get_bucket_object (f.read db) k ≡ r
        → find_object f k db ≡ ok (o, db')
        → (view (f.read db) k ≡ o) × (db' ≡ db)
    unfolding find_object
    find_cases k db (ok v) e h = ground (arith, get_bucket_object-ok (f.read db) k v)
    find_cases k db (err x) e h = ground (arith, get_bucket_object-not_exist (f.read db) k)

    pub find_object-ok :
        (k : Text) (db : Db) {o : Option V} {db' : Db}
        → find_object f k db ≡ ok (o, db')
        → (view (f.read db) k ≡ o) × (db' ≡ db)
    find_object-ok k db h = find_cases k db (get_bucket_object (f.read db) k) refl h

    pub find_object-some :
        (k : Text) (db : Db) {v : V}
        → view (f.read db) k ≡ some v
        → find_object f k db ≡ ok (some v, db)
    unfolding find_object
    find_object-some k db {v} h = ground (arith, get_bucket_object-some (f.read db) k v h)

    pub put_object-ok :
        (k : Text) (v : V) (db : Db) {u : Unit {0}} {db' : Db}
        → put_object f k v db ≡ ok (u, db')
        → (t : b.Bucket V) × (db' ≡ f.write db t)
          × ((j : Text) → view (some t) j ≡ (if text_eq k j then some v else view (f.read db) j))
          × (k ≢ [])
    unfolding put_object
    put_object-ok k v db h = elim (Result-cases (put_bucket_value (f.read db) k v)) [
      | inl (e, failed) ↦ absurd (ground arith)
      | inr (t, went) ↦ (
        t,
        ground arith,
        λ j. view-put (f.read db) k j v t went,
        λ blank. put-blank (f.read db) v t (rw blank at went),
      )
    ]

    pub has_key-ok :
        (k : Text) (db : Db) {h : Bool} {db' : Db}
        → has_key f k db ≡ ok (h, db')
        → (h ≡ is_some (view (f.read db) k)) × (db' ≡ db)
    unfolding has_key
    has_key-ok k db {h} e = (bucket_has_key-ok (f.read db) k h (ground arith), ground arith)

    -- A key that is seen is there.
    pub has_key-some :
        (k : Text) (db : Db) → is_some (view (f.read db) k) ≡ true → has_key f k db ≡ ok (true, db)
    unfolding has_key view bucket_has_key
    has_key-some k db h = ground arith

    pub next_seq-ok :
        (db : Db) {n : ℕ} {db' : Db}
        → next_seq f db ≡ ok (n, db')
        → (t : b.Bucket V) × (db' ≡ f.write db t)
          × ((j : Text) → view (some t) j ≡ view (f.read db) j)
          × (0 < n)
    unfolding next_seq
    next_seq-ok db {n} h = elim (Result-cases (next_sequence (f.read db))) [
      | inl (e, failed) ↦ absurd (ground arith)
      | inr ((m, t), went) ↦ (
        t,
        ground arith,
        λ j. view-next_sequence (f.read db) j m t went,
        ground (arith, next_sequence-pos (f.read db) m t went),
      )
    ]

  -- The steps of a transaction that went through, one at a time.
  module _ {V B P : Type 0} {r : B × Db} (f : Field V) where
    pub get_then :
        (k : Text) (g : V → Tx Db B) (db : Db)
        → (get_object f k >>= g) db ≡ ok r
        → ((v : V) → view (f.read db) k ≡ some v → g v db ≡ ok r → P)
        → P
    get_then k g db h next = bind_then (get_object f k) g db h λ v db' e h'.
        let (seen, same) = get_object-ok f k db e in next v seen (ap (g v) (sym same) ∙ h')

    pub find_then :
        (k : Text) (g : Option V → Tx Db B) (db : Db)
        → (find_object f k >>= g) db ≡ ok r
        → ((o : Option V) → view (f.read db) k ≡ o → g o db ≡ ok r → P)
        → P
    find_then k g db h next = bind_then (find_object f k) g db h λ o db' e h'.
        let (seen, same) = find_object-ok f k db e in next o seen (ap (g o) (sym same) ∙ h')

    pub has_then :
        (k : Text) (g : Bool → Tx Db B) (db : Db)
        → (has_key f k >>= g) db ≡ ok r
        → ((q : Bool) → q ≡ is_some (view (f.read db) k) → g q db ≡ ok r → P)
        → P
    has_then k g db h next = bind_then (has_key f k) g db h λ q db' e h'.
        let (seen, same) = has_key-ok f k db e in next q seen (ap (g q) (sym same) ∙ h')

    pub seq_then :
        (g : ℕ → Tx Db B) (db : Db)
        → (next_seq f >>= g) db ≡ ok r
        → ((n : ℕ) (t : b.Bucket V)
            → ((j : Text) → view (some t) j ≡ view (f.read db) j)
            → 0 < n
            → g n (f.write db t) ≡ ok r
            → P)
        → P
    seq_then g db h next = bind_then (next_seq f) g db h λ n db' e h'.
        let (t, wrote, views, pos) = next_seq-ok f db e in
        next n t views pos (ap (g n) (sym wrote) ∙ h')

    pub put_then :
        (k : Text) (v : V) (g : Unit {0} → Tx Db B) (db : Db)
        → (put_object f k v >>= g) db ≡ ok r
        → ((t : b.Bucket V)
            → ((j : Text) → view (some t) j ≡ (if text_eq k j then some v else view (f.read db) j))
            → k ≢ []
            → g tt (f.write db t) ≡ ok r
            → P)
        → P
    put_then k v g db h next = bind_then (put_object f k v) g db h λ u db' e h'.
        let (t, wrote, views, ne) = put_object-ok f k v db e in
        next t views ne (ap (g tt) (sym wrote) ∙ h')

  module _ {S A : Type 0} (m : Tx S A) (s : S) where
    pub update-ok : {a : A} {s' : S} → update m s ≡ (ok a, s') → m s ≡ ok (a, s')
    unfolding update
    update-ok h = ground arith

    pub update-err : {e : Error} {s' : S} → update m s ≡ (err e, s') → s' ≡ s
    unfolding update
    update-err h = ground arith

    pub update_refused : {e : Error} → (update m s).0 ≡ err e → update m s ≡ (err e, s)
    unfolding update
    update_refused h = ground arith

    pub update_commits :
        {a : A} {s' : S} → m s ≡ ok (a, s') → b.commits s' ≡ true → update m s ≡ (ok a, s')
    unfolding update
    update_commits h c = ground arith

    pub update_fails : {e : Error} → m s ≡ err e → update m s ≡ (err e, s)
    unfolding update
    update_fails h = ground arith
