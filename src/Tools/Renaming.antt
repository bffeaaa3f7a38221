-- ===== src/Tools/Renaming.antt =====
-- cmd/dbmigrate/dbmigrate.go: a bucket under another name. Its values are the bytes of the file,
-- which PutBucketValue writes as they are. The two names differ.
pub mod Renamed
use teller.Common.{
  Option, none, some, Text, Result, ok, err, commit_failed, bucket_not_exist, if◌then◌else◌,
}
use teller.Bolt.{Bolt}
use teller.Dbutil.{put_bucket_value, for_each, create_bucket_if_not_exists}

module _ ⦃b : Bolt⦄ where
  unfoldable pub copy_entry : b.Bucket Text → Text → Text → Result (b.Bucket Text)
  copy_entry t k v = put_bucket_value (some t) k v

  unfoldable pub committed : b.Bucket Text → Result (b.Bucket Text) → Result (b.Bucket Text)
  committed t (err e) = err e
  committed t (ok u) = if b.commits u then ok u else err commit_failed

  -- The error, if any, and the new bucket after the two transactions; the first creates it.
  unfoldable pub rename_bucket :
      Option (b.Bucket Text) → Option (b.Bucket Text) → Result (Unit {0}) × Option (b.Bucket Text)
  unfolding committed
  rename_bucket old new =
      let made = create_bucket_if_not_exists new in
      if b.commits made
      then elim (committed made (for_each old copy_entry made)) [
        | err e ↦ (err e, some made)
        | ok t ↦ (ok tt, some t)
      ]
      else (err commit_failed, new)

-- deleteBucket, when the flag is set
unfoldable pub delete_bucket :
    ⦃b : Bolt⦄ → Option (b.Bucket Text) → Result (Unit {0}) × Option (b.Bucket Text)
delete_bucket none = (err bucket_not_exist, none)
delete_bucket (some t) = (ok tt, none)
