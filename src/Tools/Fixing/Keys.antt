-- ===== src/Tools/Fixing/Keys.antt =====
-- What the second transaction of cmd/dbfix/dbfix.go does to the keys that it is given.
use teller.Common.{
  ◌≡◌, inl, inr, sym, ap, ◌∙◌, subst, arith, Bool, Bool-cases, true, false, Option-cases, some,
  List, [], ◌∷◌, Text, text_eq, text_eq_iff,
}
use teller.Bolt.{Bolt}
use teller.Scanner.Store.{listed}
use teller.Tools.Fixing.{fix_address, fix_value, fix_key, fix_keys}
use teller.Tools.Fixing.Trimmed.{fix_address_again}

module _ ⦃b : Bolt⦄ (decodes : Text → Bool) {V : Type 0} (read : V → Text)
    (write : V → Text → V) where
  abbrev pub Changed : b.Bucket V → List Text → b.Bucket V → Text → Type 0
  Changed t ks u k =
      (listed k ks ≡ false → b.get u k ≡ b.get t k)
      × (listed k ks ≡ true
          → (v : V) × (x : Text) × (b.get t k ≡ some v)
            × (fix_address decodes (read v) ≡ some x)
            × (b.get u k ≡ some (write v x)))

  fix_key-some :
      (t u : b.Bucket V) (k : Text)
      → fix_key decodes read write t k ≡ some u
      → (v : V) × (x : Text) × (b.get t k ≡ some v)
        × (fix_address decodes (read v) ≡ some x)
        × (b.put t k (write v x) ≡ some u)
  unfolding fix_key fix_value
  fix_key-some t u k h = elim (Option-cases (b.get t k)) [
    | inl gone ↦ absurd (ground arith)
    | inr (v, there) ↦ elim (Option-cases (fix_address decodes (read v))) [
      | inl bad ↦ absurd (ground arith)
      | inr (x, good) ↦ (v, x, there, good, ground arith)
    ]
  ]

  module _ (read-write : (v : V) (a : Text) → read (write v a) ≡ a) where
    -- The first key of a list; it is not repaired twice.
    fix_first :
        (t r u : b.Bucket V) (j : Text) (js : List Text)
        → fix_key decodes read write t j ≡ some r
        → Changed r js u j
        → (v : V) × (x : Text) × (b.get t j ≡ some v)
          × (fix_address decodes (read v) ≡ some x)
          × (b.get u j ≡ some (write v x))
    fix_first t r u j js went ih =
        let (v, x, there, good, put) = fix_key-some t r j went in
        let now : b.get r j ≡ some (write v x) =
          ground (arith, b.get-put t j j (write v x) r put, text_eq_iff j j) in
        elim (Bool-cases (listed j js)) [
          | inl twice ↦
              let (v1, x1, there1, good1, put1) = ih.1 twice in
              let same : write v x ≡ v1 = ground (arith, now, there1) in
              absurd (
                ground (
                  arith,
                  fix_address_again decodes (read v) x good,
                  read-write v x,
                  ap (λ y. fix_address decodes (read y)) same,
                  good1,
                ))
          | inr once ↦ (v, x, there, good, ih.0 once ∙ now)
        ]

    fix_next :
        (t r u : b.Bucket V) (j k : Text) (js : List Text)
        → fix_key decodes read write t j ≡ some r
        → text_eq j k ≡ false
        → Changed r js u k
        → Changed t js u k
    fix_next t r u j k js went other ih =
        let (v, x, there, good, put) = fix_key-some t r j went in
        let as_before : b.get r k ≡ b.get t k = ground (arith, b.get-put t j k (write v x) r put) in
        (
          λ e. ih.0 e ∙ as_before,
          λ e.
              let (v1, x1, there1, good1, put1) = ih.1 e in
              (v1, x1, sym as_before ∙ there1, good1, put1),
        )

    pub fix_keys-Changed :
        (t u : b.Bucket V) (ks : List Text)
        → fix_keys decodes read write t ks ≡ some u
        → (k : Text) → Changed t ks u k
    unfolding fix_keys listed
    fix_keys-Changed t u [] h k = (λ e. ground arith, λ e. absurd (ground arith))
    fix_keys-Changed t u (j ∷ js) h k = elim (Option-cases (fix_key decodes read write t j)) [
      | inl stuck ↦ absurd (ground arith)
      | inr (r, went) ↦
          let ih = fix_keys-Changed r u js (ground arith) in
          elim (Bool-cases (text_eq j k)) [
            | inl same ↦
                let key = (text_eq_iff j k).0 same in
                (
                  λ e. absurd (ground arith),
                  λ e.
                      subst
                        (λ y.
                          (v : V) × (x : Text) × (b.get t y ≡ some v)
                          × (fix_address decodes (read v) ≡ some x)
                          × (b.get u y ≡ some (write v x)))
                        key (fix_first t r u j js went (ih j)),
                )
            | inr other ↦
                let kept = fix_next t r u j k js went other (ih k) in rw (listed, other) kept
          ]
    ]
