-- ===== src/Dbutil.antt =====
-- util/dbutil (src/util/dbutil/dbutil.go): typed reads and writes of one bucket. `none` is the nil
-- that tx.Bucket returns for a bucket that does not exist. JSON (package encoding/json) reads back
-- what it wrote of these records, so a bucket holds the values themselves.
pub mod Laws
pub mod Collecting
use teller.Common.{
  ℕ, Bool, Option, none, some, List, [], ◌∷◌, Text, Result, ok, err, Error, bucket_not_exist,
  object_not_exist, bolt_failed, is_some, ◌>>=◌,
}
use teller.Bolt.{Bolt}

module _ ⦃b : Bolt⦄ {V : Type 0} where
  -- getBucketValue with the decoding of GetBucketObject or GetBucketString
  unfoldable pub get_bucket_object : Option (b.Bucket V) → Text → Result V
  get_bucket_object none k = err bucket_not_exist
  get_bucket_object (some t) k = elim (b.get t k) [ none ↦ err object_not_exist | some v ↦ ok v ]

  unfoldable pub put_bucket_value : Option (b.Bucket V) → Text → V → Result (b.Bucket V)
  put_bucket_value none k v = err bucket_not_exist
  put_bucket_value (some t) k v = elim (b.put t k v) [ none ↦ err bolt_failed | some t' ↦ ok t' ]

  unfoldable pub bucket_has_key : Option (b.Bucket V) → Text → Result Bool
  bucket_has_key none k = err bucket_not_exist
  bucket_has_key (some t) k = ok (is_some (b.get t k))

  unfoldable pub next_sequence : Option (b.Bucket V) → Result (ℕ × b.Bucket V)
  next_sequence none = err bucket_not_exist
  next_sequence (some t) = elim (b.next_sequence t) [ none ↦ err bolt_failed | some r ↦ ok r ]

  -- CreateBucketIfNotExists keeps a bucket that is there.
  unfoldable pub create_bucket_if_not_exists : Option (b.Bucket V) → b.Bucket V
  create_bucket_if_not_exists none = b.fresh
  create_bucket_if_not_exists (some t) = t

  unfoldable pub fold_entries {κ} :
      {A : Type κ} → (A → Text → V → Result A) → A → List (Text × V) → Result A
  fold_entries f a [] = ok a
  fold_entries f a ((k, v) ∷ l) = f a k v >>= λ a'. fold_entries f a' l

  -- The callback works on the variables of its caller, here the accumulator.
  unfoldable pub for_each {κ} :
      {A : Type κ} → Option (b.Bucket V) → (A → Text → V → Result A) → A → Result A
  unfolding fold_entries
  for_each none f a = err bucket_not_exist
  for_each (some t) f a = fold_entries f a (b.entries t)

  -- What a bucket has under a key.
  unfoldable pub view : Option (b.Bucket V) → Text → Option V
  view none k = none
  view (some t) k = b.get t k
