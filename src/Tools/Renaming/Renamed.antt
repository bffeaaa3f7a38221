-- ===== src/Tools/Renaming/Renamed.antt =====
-- What cmd/dbmigrate/dbmigrate.go puts under the new name.
use teller.Common.{
  ◌≡◌, ◌⊎◌, inl, inr, refl, ap, ◌∙◌, subst, arith, Bool-cases, Option, none, some, List, [], ◌∷◌,
  Text, text_eq, text_eq_iff, Any, Result-cases, ok, if◌then◌else◌,
}
use teller.Bolt.{Bolt}
use teller.Dbutil.{fold_entries, for_each, create_bucket_if_not_exists, view}
use teller.Dbutil.Laws.{view-put}
use teller.Tools.Renaming.{copy_entry, committed, rename_bucket}

module _ ⦃b : Bolt⦄ where
  abbrev Has : Text → Text → List (Text × Text) → Type 0
  Has k v l = Any (λ (e : Text × Text). e ≡ (k, v)) l

  abbrev Copies : List (Text × Text) → b.Bucket Text → b.Bucket Text → Text → Type 0
  Copies l made t k =
      ((v : Text)
        → ((w : Text) → Has k w l → w ≡ v)
        → Has k v l ⊎ (b.get made k ≡ some v)
        → b.get t k ≡ some v)
      × (((w : Text) → ¬ Has k w l) → b.get t k ≡ b.get made k)

  copy_next :
      (j w : Text) (l : List (Text × Text)) (made next t : b.Bucket Text) (k : Text)
      → copy_entry made j w ≡ ok next
      → Copies l next t k
      → Copies ((j, w) ∷ l) made t k
  unfolding copy_entry view
  copy_next j w l made next t k put ih =
      let now : b.get next k ≡ (if text_eq j k then some w else b.get made k) =
        view-put (some made) j k w next put in
      (
        λ v same where_it_is.
            ih.0 v (λ x m. same x (inr m))
              (elim where_it_is [
                | inl (inl here) ↦ inr (
                    now
                    ∙ ground (
                      arith,
                      (text_eq_iff j k).1 (ap (λ (e : Text × Text). e.0) here),
                      ap (λ (e : Text × Text). e.1) here,
                    ))
                | inl (inr later) ↦ inl later
                | inr before ↦ elim (Bool-cases (text_eq j k)) [
                  | inl key ↦ inr (
                      ground
                        (arith, now, (same w (inl (ap (λ x. (x, w)) ((text_eq_iff j k).0 key))))))
                  | inr other ↦ inr (ground (arith, now))
                ]
              ]),
        λ nowhere. ih.1 (λ x m. nowhere x (inr m)) ∙ elim (Bool-cases (text_eq j k)) [
          | inl key ↦ absurd (nowhere w (inl (ap (λ x. (x, w)) ((text_eq_iff j k).0 key))))
          | inr other ↦ ground (arith, now)
        ],
      )

  fold_entries-Copies :
      (l : List (Text × Text)) (made t : b.Bucket Text) (k : Text)
      → fold_entries copy_entry made l ≡ ok t
      → Copies l made t k
  unfolding fold_entries
  fold_entries-Copies [] made t k h = (
    λ v same where_it_is. elim where_it_is [
      | inl m ↦ elim m [ ]
      | inr before ↦ ground (arith, before)
    ],
    λ nowhere. ground arith,
  )
  fold_entries-Copies ((j, w) ∷ l) made t k h = elim (Result-cases (copy_entry made j w)) [
    | inl (e, bad) ↦ absurd (ground arith)
    | inr (next, put) ↦
        copy_next j w l made next t k put (fold_entries-Copies l next t k (ground arith))
  ]

  view-create :
      (new : Option (b.Bucket Text)) (k : Text)
      → b.get (create_bucket_if_not_exists new) k ≡ view new k
  unfolding create_bucket_if_not_exists view
  view-create none k = b.get-fresh k
  view-create (some t) k = refl

  -- What stands under a key of the new bucket.
  pub record Renamed (old t : b.Bucket Text) (new : Option (b.Bucket Text)) (k : Text)
      : Type 0 where
    pub copied : (v : Text) → b.get old k ≡ some v → b.get t k ≡ some v
    pub rest : b.get old k ≡ none → b.get t k ≡ view new k

  entries-Renamed :
      (old t : b.Bucket Text) (new : Option (b.Bucket Text)) (k : Text)
      → fold_entries copy_entry (create_bucket_if_not_exists new) (b.entries old) ≡ ok t
      → Renamed old t new k
  entries-Renamed old t new k h =
      let copies = fold_entries-Copies (b.entries old) (create_bucket_if_not_exists new) t k h in
      record {
        copied = λ v there.
            copies.0 v (λ w m. ground (arith, (b.entries-get old k w).0 m, there))
              (inl ((b.entries-get old k v).1 there));
        rest = λ gone.
            copies.1 (λ w m. ground (arith, (b.entries-get old k w).0 m, gone)) ∙ view-create new k;
      }

  -- When renameBucket of cmd/dbmigrate succeeds on a bucket that exists, the new bucket has
  -- under each key of the old one the value that the old one has there, and under every other
  -- key what it had before.
  pub rename_bucket-Renamed :
      (old : b.Bucket Text) (new : Option (b.Bucket Text)) {u : Unit {0}} {t : b.Bucket Text}
      → rename_bucket (some old) new ≡ (ok u, some t)
      → (k : Text) → Renamed old t new k
  unfolding rename_bucket committed for_each
  rename_bucket-Renamed old new {u} {t} h k =
      let made = create_bucket_if_not_exists new in
      elim (Result-cases (fold_entries copy_entry made (b.entries old))) [
        | inl (e, bad) ↦ absurd (ground arith)
        | inr (r, went) ↦
            let same : r ≡ t = ground arith in
            subst (λ x. Renamed old x new k) same (entries-Renamed old r new k went)
      ]
