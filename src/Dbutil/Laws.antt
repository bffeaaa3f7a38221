-- ===== src/Dbutil/Laws.antt =====
-- What the calls of dbutil do to the view of a bucket.
use teller.Common.{
  ℕ, ◌≡◌, Bool, Option, none, some, Text, ok, err, object_not_exist, is_some, arith, text_eq,
  if◌then◌else◌, ◌<◌, [],
}
use teller.Bolt.{Bolt}
use teller.Dbutil.{get_bucket_object, put_bucket_value, bucket_has_key, next_sequence, view}

module _ ⦃b : Bolt⦄ {V : Type 0} where
  pub get_bucket_object-ok :
      (t : Option (b.Bucket V)) (k : Text) (v : V)
      → get_bucket_object t k ≡ ok v
      → view t k ≡ some v
  unfolding get_bucket_object view
  get_bucket_object-ok t k v h = ground arith

  pub get_bucket_object-not_exist :
      (t : Option (b.Bucket V)) (k : Text)
      → get_bucket_object t k ≡ err object_not_exist
      → view t k ≡ none
  unfolding get_bucket_object view
  get_bucket_object-not_exist t k h = ground arith

  pub get_bucket_object-some :
      (t : Option (b.Bucket V)) (k : Text) (v : V)
      → view t k ≡ some v
      → get_bucket_object t k ≡ ok v
  unfolding get_bucket_object view
  get_bucket_object-some t k v h = ground arith

  pub view-put :
      (t : Option (b.Bucket V)) (k j : Text) (v : V) (t' : b.Bucket V)
      → put_bucket_value t k v ≡ ok t'
      → view (some t') j ≡ (if text_eq k j then some v else view t j)
  unfolding put_bucket_value view
  view-put none k j v t' h = cc
  view-put (some t) k j v t' h = b.get-put t k j v t' (ground arith)

  pub put-blank :
      (t : Option (b.Bucket V)) (v : V) (t' : b.Bucket V) → ¬ (put_bucket_value t [] v ≡ ok t')
  unfolding put_bucket_value
  put-blank none v t' h = cc
  put-blank (some t) v t' h = ground (arith, b.put-blank t v)

  pub bucket_has_key-ok :
      (t : Option (b.Bucket V)) (k : Text) (h : Bool)
      → bucket_has_key t k ≡ ok h
      → h ≡ is_some (view t k)
  unfolding bucket_has_key view
  bucket_has_key-ok t k h e = ground arith

  pub view-next_sequence :
      (t : Option (b.Bucket V)) (j : Text) (n : ℕ) (t' : b.Bucket V)
      → next_sequence t ≡ ok (n, t')
      → view (some t') j ≡ view t j
  unfolding next_sequence view
  view-next_sequence none j n t' h = cc
  view-next_sequence (some t) j n t' h = b.get-next_sequence t j n t' (ground arith)

  pub next_sequence-pos :
      (t : Option (b.Bucket V)) (n : ℕ) (t' : b.Bucket V) → next_sequence t ≡ ok (n, t') → 0 < n
  unfolding next_sequence
  next_sequence-pos none n t' h = cc
  next_sequence-pos (some t) n t' h = omega (arith, b.next_sequence-suc t n t' (ground arith))
