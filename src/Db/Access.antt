-- ===== src/Db/Access.antt =====
-- The calls of dbutil inside a transaction on the database, and the transactions themselves.
use teller.Common.{
  ℕ, Bool, true, false, Option, none, some, Text, Result, ok, err, object_not_exist, commit_failed,
}
use teller.Common.Txs.{Tx}
use teller.Bolt.{Bolt}
use teller.Dbutil.{
  get_bucket_object, put_bucket_value, bucket_has_key, next_sequence, create_bucket_if_not_exists,
  for_each,
}
use teller.Db.{Db, Field}

module _ ⦃b : Bolt⦄ where
  module _ {V : Type 0} (f : Field V) where
    unfoldable pub get_object : Text → Tx Db V
    get_object k db = elim (get_bucket_object (f.read db) k) [ err e ↦ err e | ok v ↦ ok (v, db) ]

    -- GetBucketObject with the switch that takes ObjectNotExistErr for "there is none".
    unfoldable pub find_object : Text → Tx Db (Option V)
    find_object k db = elim (get_bucket_object (f.read db) k) [
      | ok v ↦ ok (some v, db)
      | err object_not_exist ↦ ok (none, db)
      | err e ↦ err e
    ]

    unfoldable pub put_object : Text → V → Tx Db (Unit {0})
    put_object k v db = elim (put_bucket_value (f.read db) k v) [
      | err e ↦ err e
      | ok t ↦ ok (tt, f.write db t)
    ]

    unfoldable pub has_key : Text → Tx Db Bool
    has_key k db = elim (bucket_has_key (f.read db) k) [ err e ↦ err e | ok h ↦ ok (h, db) ]

    unfoldable pub next_seq : Tx Db ℕ
    next_seq db = elim (next_sequence (f.read db)) [
      | err e ↦ err e
      | ok (n, t) ↦ ok (n, f.write db t)
    ]

    unfoldable pub create_bucket : Tx Db (Unit {0})
    create_bucket db = ok (tt, f.write db (create_bucket_if_not_exists (f.read db)))

    unfoldable pub for_each_object : {A : Type 0} → (A → Text → V → Result A) → A → Tx Db A
    for_each_object g a db = elim (for_each (f.read db) g a) [ err e ↦ err e | ok r ↦ ok (r, db) ]

  -- DB.Update: what was written stays if the function and the commit succeed.
  unfoldable pub update : {S A : Type 0} → Tx S A → S → Result A × S
  update m s = elim (m s) [
    | err e ↦ (err e, s)
    | ok (a, s') ↦ elim (b.commits s') [ true ↦ (ok a, s') | false ↦ (err commit_failed, s) ]
  ]

  -- DB.View
  unfoldable pub read_only : {S A : Type 0} → Tx S A → S → Result A
  read_only m s = elim (m s) [ err e ↦ err e | ok (a, s') ↦ ok a ]
