-- ===== src/Common/Lists.antt =====
-- A member of a list with a property, as a type by recursion, and lengths in native numbers.
use Prim.Native.Nat.{ℕ, zero, suc}
use mathlib.Core.Path.{◌≡◌, refl, ap}
use mathlib.Core.Option.{Option, none, some}
use mathlib.Core.Logic.{◌≢◌, ◌⊎◌, inl, inr}
use mathlib.Core.List.{List, [], ◌∷◌, ◌++◌}

module _ {ℓ} {A : Type ℓ} where
  abbrev pub length : List A → ℕ
  length [] = 0
  length (x ∷ xs) = suc (length xs)

module _ {ℓ} {A : Type ℓ} where
  abbrev pub get_elem? : List A → ℕ → Option A
  get_elem? [] i = none
  get_elem? (x ∷ xs) zero = some x
  get_elem? (x ∷ xs) (suc i) = get_elem? xs i

  -- Without the element at one place: `append(xs[:i], xs[i+1:]...)`.
  abbrev pub erase_at : List A → ℕ → List A
  erase_at [] i = []
  erase_at (x ∷ xs) zero = xs
  erase_at (x ∷ xs) (suc i) = x ∷ erase_at xs i

  pub get_elem?-append : (xs ys : List A) → get_elem? (xs ++ ys) (length xs) ≡ get_elem? ys 0
  get_elem?-append [] ys = refl
  get_elem?-append (x ∷ xs) ys = get_elem?-append xs ys

  pub erase_at-append : (xs ys : List A) → erase_at (xs ++ ys) (length xs) ≡ xs ++ erase_at ys 0
  erase_at-append [] ys = refl
  erase_at-append (x ∷ xs) ys = ap (◌∷◌ x) (erase_at-append xs ys)

  pub length-append_one : (xs : List A) (y : A) → length (xs ++ (y ∷ [])) ≡ suc (length xs)
  length-append_one [] y = refl
  length-append_one (x ∷ xs) y = ap suc (length-append_one xs y)

abbrev pub Any {ℓ} : {A : Type ℓ} → (A → Type 0) → List A → Type 0
Any P [] = ⊥
Any P (x ∷ xs) = P x ⊎ Any P xs

abbrev pub All {ℓ} : {A : Type ℓ} → (A → Type 0) → List A → Type 0
All P [] = Unit
All P (x ∷ xs) = P x × All P xs

module _ {ℓ} {A : Type ℓ} (P : A → Type 0) where
  pub Any-append_left : (xs ys : List A) → Any P xs → Any P (xs ++ ys)
  Any-append_left [] ys h = elim h [ ]
  Any-append_left (x ∷ xs) ys (inl p) = inl p
  Any-append_left (x ∷ xs) ys (inr h) = inr (Any-append_left xs ys h)

  pub Any-append_right : (xs ys : List A) → Any P ys → Any P (xs ++ ys)
  Any-append_right [] ys h = h
  Any-append_right (x ∷ xs) ys h = inr (Any-append_right xs ys h)

  pub Any-append : (xs ys : List A) → Any P (xs ++ ys) → Any P xs ⊎ Any P ys
  Any-append [] ys h = inr h
  Any-append (x ∷ xs) ys (inl p) = inl (inl p)
  Any-append (x ∷ xs) ys (inr h) = elim (Any-append xs ys h) [ inl l ↦ inl (inr l) | inr r ↦ inr r ]

-- A member with one property, in a list where all have another.
pub Any-All {ℓ} :
    {A : Type ℓ} {P Q : A → Type 0} {R : Type 0} (xs : List A)
    → ((x : A) → P x → Q x → R)
    → Any P xs
    → All Q xs
    → R
Any-All [] f h a = elim h [ ]
Any-All (x ∷ xs) f (inl p) a = f x p a.0
Any-All (x ∷ xs) f (inr h) a = Any-All xs f h a.1

abbrev pub take {ℓ} : {A : Type ℓ} → ℕ → List A → List A
take zero xs = []
take (suc n) [] = []
take (suc n) (x ∷ xs) = x ∷ take n xs

pub Any-member :
    {A : Type 0} {P : A → Type 0} (xs : List A)
    → Any P xs
    → (x : A) × P x × Any (λ (y : A). y ≡ x) xs
Any-member [] h = elim h [ ]
Any-member (x ∷ xs) (inl p) = (x, p, inl refl)
Any-member (x ∷ xs) (inr h) = let (y, p, m) = Any-member xs h in (y, p, inr m)

pub Any-map {ℓ} :
    {A : Type ℓ} {P Q : A → Type 0} (xs : List A) → ((x : A) → P x → Q x) → Any P xs → Any Q xs
Any-map [] f h = elim h [ ]
Any-map (x ∷ xs) f (inl p) = inl (f x p)
Any-map (x ∷ xs) f (inr h) = inr (Any-map xs f h)

pub Any-use {ℓ} :
    {A : Type ℓ} {P : A → Type 0} {R : Type 0} (xs : List A) → ((x : A) → P x → R) → Any P xs → R
Any-use [] f h = elim h [ ]
Any-use (x ∷ xs) f (inl p) = f x p
Any-use (x ∷ xs) f (inr h) = Any-use xs f h

pub All-map {ℓ} :
    {A : Type ℓ} {P Q : A → Type 0} (xs : List A) → ((x : A) → P x → Q x) → All P xs → All Q xs
All-map [] f a = tt
All-map (x ∷ xs) f a = (f x a.0, All-map xs f a.1)

pub All-append {ℓ} :
    {A : Type ℓ} (P : A → Type 0) (xs ys : List A) → All P xs → All P ys → All P (xs ++ ys)
All-append P [] ys a c = c
All-append P (x ∷ xs) ys a c = (a.0, All-append P xs ys a.1 c)

-- All of a list, from what holds of each member.
pub All-of :
    {A : Type 0} {P : A → Type 0} (xs : List A)
    → ((x : A) → Any (λ (y : A). y ≡ x) xs → P x)
    → All P xs
All-of [] f = tt
All-of (x ∷ xs) f = (f x (inl refl), All-of xs (λ y m. f y (inr m)))

-- No element comes twice.
abbrev pub AllDiffer : {A : Type 0} → List A → Type 0
AllDiffer [] = Unit {0}
AllDiffer (x ∷ xs) = All (λ y. x ≢ y) xs × AllDiffer xs
