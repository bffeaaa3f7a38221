-- ===== src/Common/Txs.antt =====
-- Code that runs in one writable transaction: it works on the state and returns a value, or an
-- error, which drops what it wrote. `update` is bolt's DB.Update, `read_only` its DB.View.
use mathlib.Core.Path.{◌≡◌, refl, sym, ap, ◌∙◌}
use mathlib.Core.Bool.{Bool, true, false}
use mathlib.Core.Option.{Option, none, some}
use teller.Common.Results.{Error, Result, ok, err, wrapped, Result-cases}
use mathlib.Core.Logic.{inl, inr}
use native.Mathlib.Omega.{arith}

abbrev pub Tx : Type 0 → Type 0 → Type 0
Tx S A = S → Result (A × S)

module _ {S : Type 0} where
  abbrev pub pure : {A : Type 0} → A → Tx S A
  pure a s = ok (a, s)

  abbrev pub throw : {A : Type 0} → Error → Tx S A
  throw e s = err e

  infixl 5 ◌>>=◌ ◌>>◌
  abbrev pub ◌>>=◌ : {A B : Type 0} → Tx S A → (A → Tx S B) → Tx S B
  ◌>>=◌ m f s = elim (m s) [ err e ↦ err e | ok (a, s') ↦ f a s' ]

  abbrev pub ◌>>◌ : {B : Type 0} → Tx S (Unit {0}) → Tx S B → Tx S B
  m >> k = m >>= λ _. k

  abbrev pub guard : Bool → Error → Tx S (Unit {0})
  guard true e s = ok (tt, s)
  guard false e s = err e

  abbrev pub lift : {A : Type 0} → Result A → Tx S A
  lift (ok a) s = ok (a, s)
  lift (err e) s = err e

  abbrev pub or_throw : {A : Type 0} → Option A → Error → Tx S A
  or_throw none e s = err e
  or_throw (some a) e s = ok (a, s)

  -- err = fmt.Errorf("...: %v", err)
  abbrev pub wrap : {A : Type 0} → Tx S A → Tx S A
  wrap m s = elim (m s) [ err e ↦ err (wrapped e) | ok r ↦ ok r ]

  abbrev bound : {A B : Type 0} → (A → Tx S B) → Result (A × S) → Result (B × S)
  bound f r = elim r [ err e ↦ err e | ok (a, s') ↦ f a s' ]

  -- Inversion of a transaction that went through.
  pub >>=-ok :
      {A B : Type 0} (m : Tx S A) (f : A → Tx S B) (s : S) {c : B} {s'' : S}
      → (m >>= f) s ≡ ok (c, s'')
      → (a : A) × (s' : S) × (m s ≡ ok (a, s')) × (f a s' ≡ ok (c, s''))
  >>=-ok m f s h = elim (Result-cases (m s)) [
    | inl (e, failed) ↦ cc (ap (bound f) failed)
    | inr ((a, s'), went) ↦ (a, s', went, sym (ap (bound f) went) ∙ h)
  ]

  -- The same for each kind of step, handed on to what follows it.
  module _ {B P : Type 0} {r : B × S} where
    pub bind_then :
        {A : Type 0} (m : Tx S A) (f : A → Tx S B) (s : S)
        → (m >>= f) s ≡ ok r
        → ((a : A) (s' : S) → m s ≡ ok (a, s') → f a s' ≡ ok r → P)
        → P
    bind_then m f s h k = let (a, s', e, h') = >>=-ok m f s h in k a s' e h'

    pub guard_then :
        (t : Bool) (e : Error) (f : Unit {0} → Tx S B) (s : S)
        → (guard t e >>= f) s ≡ ok r
        → (t ≡ true → f tt s ≡ ok r → P)
        → P
    guard_then true e f s h k = k refl h
    guard_then false e f s h k = cc

    pub or_throw_then :
        {A : Type 0} (o : Option A) (e : Error) (f : A → Tx S B) (s : S)
        → (or_throw o e >>= f) s ≡ ok r
        → ((a : A) → o ≡ some a → f a s ≡ ok r → P)
        → P
    or_throw_then none e f s h k = cc
    or_throw_then (some a) e f s h k = k a refl h

    pub lift_then :
        {A : Type 0} (m : Result A) (f : A → Tx S B) (s : S)
        → (lift m >>= f) s ≡ ok r
        → ((a : A) → m ≡ ok a → f a s ≡ ok r → P)
        → P
    lift_then (err e) f s h k = cc
    lift_then (ok a) f s h k = k a refl h

  pub wrap-ok : {A : Type 0} (m : Tx S A) (s : S) {r : A × S} → wrap m s ≡ ok r → m s ≡ ok r
  wrap-ok m s h = ground arith
