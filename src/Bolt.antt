-- ===== src/Bolt.antt =====
-- The bolt database that the program calls (github.com/boltdb/bolt, a package of another project),
-- as an interface: a bucket of values under keys, and what that package documents of its calls.
use teller.Common.{
  Any, ◌↔◌, ℕ, ◌+◌, ◌≡◌, Bool, Option, none, some, List, [], Text, text_eq, if◌then◌else◌,
}

-- `none` is an error of the call. A bucket is typed by what the program puts in it.
pub record Bolt : Type 1 where
  pub Bucket : Type 0 → Type 0
  -- a bucket that CreateBucketIfNotExists has just made
  pub fresh : {V : Type 0} → Bucket V
  pub get : {V : Type 0} → Bucket V → Text → Option V
  pub put : {V : Type 0} → Bucket V → Text → V → Option (Bucket V)
  pub sequence : {V : Type 0} → Bucket V → ℕ
  pub next_sequence : {V : Type 0} → Bucket V → Option (ℕ × Bucket V)
  -- what ForEach visits
  pub entries : {V : Type 0} → Bucket V → List (Text × V)
  -- whether the commit of a transaction that ends in this state goes through
  pub commits : {S : Type 0} → S → Bool
  pub get-fresh : {V : Type 0} (k : Text) → get (fresh {V = V}) k ≡ none
  pub get-put :
      {V : Type 0} (t : Bucket V) (k j : Text) (v : V) (t' : Bucket V)
      → put t k v ≡ some t'
      → get t' j ≡ (if text_eq k j then some v else get t j)
  -- "Put ... returns an error ... if the key is blank"
  pub put-blank : {V : Type 0} (t : Bucket V) (v : V) → put t [] v ≡ none
  pub get-next_sequence :
      {V : Type 0} (t : Bucket V) (j : Text) (n : ℕ) (t' : Bucket V)
      → next_sequence t ≡ some (n, t')
      → get t' j ≡ get t j
  pub next_sequence-suc :
      {V : Type 0} (t : Bucket V) (n : ℕ) (t' : Bucket V)
      → next_sequence t ≡ some (n, t')
      → n ≡ sequence t + 1
  -- "ForEach executes a function for each key/value pair in a bucket"
  pub entries-get :
      {V : Type 0} (t : Bucket V) (k : Text) (v : V)
      → Any (λ (e : Text × V). e ≡ (k, v)) (entries t) ↔ (get t k ≡ some v)
