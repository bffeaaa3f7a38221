-- ===== src/Dbutil/Collecting.antt =====
-- ForEach with a callback that appends the values that pass a test.
use teller.Common.{
  ◌≡◌, ◌↔◌, ◌⊎◌, inl, inr, refl, ap, ◌∙◌, arith, Bool, true, Bool-cases, Option, none, some, List,
  [], ◌∷◌, ◌++◌, Text, Result, ok, Any, Any-append, Any-member, Any-map, Any-append_left,
  Any-append_right, if◌then◌else◌,
}
use teller.Bolt.{Bolt}
use teller.Dbutil.{fold_entries, for_each, view}

module _ {V : Type 0} (p : V → Bool) where
  abbrev pub collect : List V → Text → V → Result (List V)
  collect l k v = ok (if p v then l ++ (v ∷ []) else l)

  -- An entry that passes, with this value.
  abbrev pub Passes : V → Text × V → Type 0
  Passes v e = (e.1 ≡ v) × (p v ≡ true)

module _ ⦃b : Bolt⦄ {V : Type 0} (p : V → Bool) where
  abbrev Here : V → List V → Type 0
  Here v l = Any (λ (x : V). x ≡ v) l

  append_if :
      (w v : V) (acc : List V)
      → Here v (if p w then acc ++ (w ∷ []) else acc) ↔ (Here v acc ⊎ ((w ≡ v) × (p w ≡ true)))
  append_if w v acc = elim (Bool-cases (p w)) [
    | inl pass ↦ rw pass (
      λ h. elim (Any-append (λ (x : V). x ≡ v) acc (w ∷ []) h) [
        | inl old ↦ inl old
        | inr (inl e) ↦ inr (e, refl)
        | inr (inr bad) ↦ elim bad [ ]
      ],
      elim [
        | inl old ↦ Any-append_left (λ (x : V). x ≡ v) acc (w ∷ []) old
        | inr e ↦ Any-append_right (λ (x : V). x ≡ v) acc (w ∷ []) (inl e.0)
      ],
    )
    | inr fail ↦ rw fail (λ h. inl h, elim [ inl old ↦ old | inr e ↦ absurd (ground arith) ])
  ]

  fold_collect :
      (l : List (Text × V)) (acc : List V) {r : List V} (v : V)
      → fold_entries (collect p) acc l ≡ ok r
      → Here v r ↔ (Here v acc ⊎ Any (Passes p v) l)
  unfolding fold_entries
  fold_collect [] acc {r} v h =
      let same : acc ≡ r = ground arith in
      rw (← same) (λ x. inl x, elim [ inl x ↦ x | inr bad ↦ elim bad [ ] ])
  fold_collect ((k, w) ∷ l) acc v h =
      let ih = fold_collect l (if p w then acc ++ (w ∷ []) else acc) v h in
      let one = append_if w v acc in
      (
        λ x. elim (ih.0 x) [
          | inl y ↦ elim (one.0 y) [ inl old ↦ inl old | inr e ↦ inr (inl (ground arith)) ]
          | inr y ↦ inr (inr y)
        ],
        elim [
          | inl old ↦ ih.1 (inl (one.1 (inl old)))
          | inr (inl e) ↦ ih.1 (inl (one.1 (inr (ground arith))))
          | inr (inr y) ↦ ih.1 (inr y)
        ],
      )

  -- What ForEach collects from a bucket: the values that pass, of all keys.
  pub for_each-collect :
      (o : Option (b.Bucket V)) {r : List V} (v : V)
      → for_each o (collect p) [] ≡ ok r
      → Here v r ↔ ((k : Text) × (view o k ≡ some v) × (p v ≡ true))
  unfolding for_each view
  for_each-collect none v h = absurd (ground arith)
  for_each-collect (some t) v h =
      let all = fold_collect (b.entries t) [] v h in
      (
        λ x. elim (all.0 x) [
          | inl bad ↦ elim bad [ ]
          | inr y ↦
              let ((k, w), (same, pass), here) = Any-member (b.entries t) y in
              (k, (b.entries-get t k w).0 here ∙ ap some same, pass)
        ],
        λ x.
            let (k, there, pass) = x in
            all.1 (
              inr (
                Any-map (b.entries t) (λ e same. (ap (λ (y : Text × V). y.1) same, pass))
                  ((b.entries-get t k v).1 there))),
      )
