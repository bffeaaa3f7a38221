-- ===== src/Tools/Fixing/Repaired.antt =====
-- The values that cmd/dbfix/dbfix.go leaves in a bucket.
use teller.Common.{
  ◌≡◌, inl, inr, refl, sym, ap, ◌∙◌, subst, arith, Bool, Bool-cases, true, false, Option-cases,
  none, some, List, [], ◌∷◌, Text, text_eq, text_eq_iff, Any, ok,
}
use teller.Bolt.{Bolt}
use teller.Scanner.Store.{listed}
use teller.Exchange.Types.{DepositInfo}
use teller.Tools.Fixing.{
  cut_both, fix_address, invalid_keys, fix_keys, fix_bkt, fix_deposit_info_bkt,
}
use teller.Tools.Fixing.Keys.{Changed, fix_keys-Changed}

fix_address-some :
    (decodes : Text → Bool) (a x : Text)
    → fix_address decodes a ≡ some x
    → (x ≡ cut_both a) × (decodes x ≡ true)
unfolding fix_address
fix_address-some decodes a x h = ground arith

module _ ⦃b : Bolt⦄ (decodes : Text → Bool) {V : Type 0} (read : V → Text)
    (write : V → Text → V) where
  invalid_keys-listed :
      (k : Text) (l : List (Text × V))
      → listed k (invalid_keys decodes read write l) ≡ true
      → (v : V) × Any (λ (e : Text × V). e ≡ (k, v)) l × (decodes (read v) ≡ false)
  unfolding invalid_keys listed
  invalid_keys-listed k [] h = absurd (ground arith)
  invalid_keys-listed k ((j, w) ∷ l) h = elim (Bool-cases (decodes (read w))) [
    | inl good ↦ let (v, m, bad) = invalid_keys-listed k l (ground arith) in (v, inr m, bad)
    | inr bad ↦ elim (Bool-cases (text_eq j k)) [
      | inl same ↦ (w, inl (ap (λ y. (y, w)) ((text_eq_iff j k).0 same)), bad)
      | inr other ↦ let (v, m, bad') = invalid_keys-listed k l (ground arith) in (v, inr m, bad')
    ]
  ]

  listed-invalid_keys :
      (k : Text) (v : V) (l : List (Text × V))
      → Any (λ (e : Text × V). e ≡ (k, v)) l
      → decodes (read v) ≡ false
      → listed k (invalid_keys decodes read write l) ≡ true
  unfolding invalid_keys listed
  listed-invalid_keys k v [] m bad = elim m [ ]
  listed-invalid_keys k v ((j, w) ∷ l) (inl same) bad =
      let key = (text_eq_iff j k).1 (ap (λ (e : Text × V). e.0) same) in
      ground (arith, key, ap (λ (e : Text × V). decodes (read e.1)) same)
  listed-invalid_keys k v ((j, w) ∷ l) (inr m) bad = ground (arith, listed-invalid_keys k v l m bad)

  -- What stands under a key before and after.
  pub record Repaired (t u : b.Bucket V) (k : Text) : Type 0 where
    pub absent : b.get t k ≡ none → b.get u k ≡ none
    pub untouched : (v : V) → b.get t k ≡ some v → decodes (read v) ≡ true → b.get u k ≡ some v
    pub trimmed :
        (v : V)
        → b.get t k ≡ some v
        → decodes (read v) ≡ false
        → (b.get u k ≡ some (write v (cut_both (read v)))) × (decodes (cut_both (read v)) ≡ true)

  fix_keys-Repaired :
      (t u : b.Bucket V) (k : Text)
      → Changed decodes read write t (invalid_keys decodes read write (b.entries t)) u k
      → Repaired t u k
  fix_keys-Repaired t u k ch =
      let ks = invalid_keys decodes read write (b.entries t) in
      record {
        absent = λ gone. elim (Bool-cases (listed k ks)) [
          | inl in_it ↦
              let (v, x, there, good, now) = ch.1 in_it in absurd (ground (arith, there, gone))
          | inr out ↦ ch.0 out ∙ gone
        ];
        untouched = λ v there fine. elim (Bool-cases (listed k ks)) [
          | inl in_it ↦
              let (w, m, bad) = invalid_keys-listed k (b.entries t) in_it in
              absurd (ground (arith, (b.entries-get t k w).0 m, there, fine, bad))
          | inr out ↦ ch.0 out ∙ there
        ];
        trimmed = λ v there bad.
            let in_it = listed-invalid_keys k v (b.entries t) ((b.entries-get t k v).1 there) bad in
            let (w, x, there', good, now) = ch.1 in_it in
            let (cut, valid) = fix_address-some decodes (read w) x good in
            let same : w ≡ v = ground (arith, there, there') in
            subst
              (λ y.
                (b.get u k ≡ some (write y (cut_both (read y))))
                × (decodes (cut_both (read y)) ≡ true))
              same (now ∙ ap (λ y. some (write w y)) cut, ap decodes (sym cut) ∙ valid);
      }

  fix_bkt-Repaired :
      (read-write : (v : V) (a : Text) → read (write v a) ≡ a) (t u : b.Bucket V)
      → fix_bkt decodes read write (some t) ≡ ok u
      → (k : Text) → Repaired t u k
  unfolding fix_bkt
  fix_bkt-Repaired read-write t u h k =
      elim (Option-cases
        (fix_keys decodes read write t (invalid_keys decodes read write (b.entries t)))) [
          | inl stuck ↦ absurd (ground arith)
          | inr (r, went) ↦
              let same : r ≡ u = ground arith in
              subst (λ y. Repaired t y k) same
                (fix_keys-Repaired t r k (
                  fix_keys-Changed decodes read write read-write t r
                    (invalid_keys decodes read write (b.entries t)) went k))
        ]

module _ ⦃b : Bolt⦄ (decodes : Text → Bool) where
  -- When fixDepositInfoBkt of cmd/dbfix succeeds, a DepositInfo whose owner address decodes is
  -- as it was, one whose owner address does not decode has that address without the blanks
  -- around it, which decodes, and is else as it was, and no key is new.
  pub fix_deposit_info_bkt-Repaired :
      (t u : b.Bucket DepositInfo)
      → fix_deposit_info_bkt decodes (some t) ≡ ok u
      → (k : Text)
      → Repaired decodes
          (λ di. di.owner_address)
          (λ di addr. record di { owner_address = addr })
          t
          u
          k
  unfolding fix_deposit_info_bkt
  fix_deposit_info_bkt-Repaired t u h k =
      fix_bkt-Repaired decodes (λ di. di.owner_address)
        (λ di addr. record di { owner_address = addr }) (λ di a. refl) t u h k
