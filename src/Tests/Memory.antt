-- ===== src/Tests/Memory.antt =====
-- An instance of the interface to bolt: buckets as association lists, in memory.
use teller.Common.{
  Any, ◌↔◌, inl, inr, ap, Bool-cases, false, text_eq_iff, ℕ, ◌+◌, ◌≡◌, refl, arith, true, Option,
  none, some, List, [], ◌∷◌, Text, text_eq, if◌then◌else◌,
}
use teller.Bolt.{Bolt}

pub record Table (V : Type 0) : Type 0 where
  pub rows : List (Text × V)
  pub counter : ℕ

abbrev pub lookup : {V : Type 0} → List (Text × V) → Text → Option V
lookup [] k = none
lookup ((j, v) ∷ l) k = if text_eq j k then some v else lookup l k

abbrev pub put_row : {V : Type 0} → Table V → Text → V → Option (Table V)
put_row t [] v = none
put_row t (c ∷ k) v = some (record t { rows = (c ∷ k, v) ∷ t.rows })

pub get-put :
    {V : Type 0} (t : Table V) (k j : Text) (v : V) (t' : Table V)
    → put_row t k v ≡ some t'
    → lookup t'.rows j ≡ (if text_eq k j then some v else lookup t.rows j)
get-put t [] j v t' h = cc
get-put t (c ∷ k) j v t' h = ground arith

abbrev pub next : {V : Type 0} → Table V → Option (ℕ × Table V)
next t = some (t.counter + 1, record t { counter = t.counter + 1 })

pub get-next :
    {V : Type 0} (t : Table V) (j : Text) (n : ℕ) (t' : Table V)
    → next t ≡ some (n, t')
    → lookup t'.rows j ≡ lookup t.rows j
get-next t j n t' h = ground arith

pub next-suc :
    {V : Type 0} (t : Table V) (n : ℕ) (t' : Table V) → next t ≡ some (n, t') → n ≡ t.counter + 1
next-suc t n t' h = ground arith

-- Without the rows of a key.
abbrev pub drop_key : {V : Type 0} → Text → List (Text × V) → List (Text × V)
drop_key k [] = []
drop_key k ((j, v) ∷ l) = let rest = drop_key k l in if text_eq k j then rest else (j, v) ∷ rest

-- The first row of each key.
abbrev pub latest : {V : Type 0} → List (Text × V) → List (Text × V)
latest [] = []
latest ((k, v) ∷ l) = (k, v) ∷ drop_key k (latest l)

module _ {V : Type 0} where
  abbrev Has : Text → V → List (Text × V) → Type 0
  Has k v l = Any (λ (e : Text × V). e ≡ (k, v)) l

  drop_key-Has :
      (k j : Text) (v : V) (l : List (Text × V))
      → Has j v (drop_key k l) ↔ ((text_eq k j ≡ false) × Has j v l)
  drop_key-Has k j v [] = (λ h. elim h [ ], λ h. h.1)
  drop_key-Has k j v ((i, w) ∷ l) = elim (Bool-cases (text_eq k i)) [
    | inl same ↦ rw same (
      λ h. let p = (drop_key-Has k j v l).0 h in (p.0, inr p.1),
      λ h. (drop_key-Has k j v l).1 (
        h.0,
        elim h.1 [ inl e ↦ absurd (ground (arith, ap (λ (x : Text × V). x.0) e, h.0)) | inr m ↦ m ],
      ),
    )
    | inr differ ↦ rw differ (
      elim [
        | inl e ↦ (ground (arith, ap (λ (x : Text × V). x.0) e), inl e)
        | inr h ↦ let p = (drop_key-Has k j v l).0 h in (p.0, inr p.1)
      ],
      λ h. elim h.1 [ inl e ↦ inl e | inr m ↦ inr ((drop_key-Has k j v l).1 (h.0, m)) ],
    )
  ]

  pub latest-Has :
      (k : Text) (v : V) (l : List (Text × V))
      → Any (λ (e : Text × V). e ≡ (k, v)) (latest l) ↔ (lookup l k ≡ some v)
  latest-Has k v [] = (λ h. elim h [ ], λ h. cc)
  latest-Has k v ((i, w) ∷ l) = elim (Bool-cases (text_eq i k)) [
    | inl same ↦ (
      elim [
        | inl e ↦ ground (arith, ap (λ (x : Text × V). x.1) e)
        | inr h ↦ absurd (ground (arith, ((drop_key-Has i k v (latest l)).0 h).0))
      ],
      λ h. inl (ground (arith, text_eq_iff i k)),
    )
    | inr differ ↦ (
      elim [
        | inl e ↦ absurd (ground (arith, ap (λ (x : Text × V). x.0) e, text_eq_iff i k))
        | inr h ↦ ground (arith, (latest-Has k v l).0 ((drop_key-Has i k v (latest l)).0 h).1)
      ],
      λ h. inr ((drop_key-Has i k v (latest l)).1 (differ, (latest-Has k v l).1 (ground arith))),
    )
  ]

-- ForEach visits the latest row of each key; every commit goes through.
instance abbrev pub memory : Bolt
memory = record {
  Bucket = Table;
  fresh = record { rows = []; counter = 0 };
  get = λ t k. lookup t.rows k;
  put = put_row;
  sequence = λ t. t.counter;
  next_sequence = next;
  entries = λ t. latest t.rows;
  commits = λ s. true;
  get-fresh = λ k. refl;
  get-put = get-put;
  put-blank = λ t v. refl;
  get-next_sequence = get-next;
  next_sequence-suc = next-suc;
  entries-get = λ t k v. latest-Has k v t.rows;
}
