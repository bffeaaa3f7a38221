-- ===== src/Common/Strings.antt =====
-- Go strings as the lists of their bytes: equality, and the calls of package strings that the
-- program makes (Split at one byte, Trim with the cutset of blanks).
use Prim.Native.Nat.{ℕ}
use Prim.Native.Char.{code}
use Prim.Native.String.{String}
use mathlib.Core.Path.{◌≡◌, refl}
use mathlib.Core.Logic.{◌↔◌, ◌≢◌}
use mathlib.Core.Bool.{Bool, true, false, ◌&&◌, ◌||◌}
use mathlib.Core.List.{List, [], ◌∷◌, ◌++◌, reverse}
use native.Mathlib.Omega.{arith}
use teller.Common.Tests.{◌==◌, if◌then◌else◌}

abbrev pub Text : Type 0
Text = List ℕ

-- The bytes of an ASCII literal.
abbrev pub codes : String → Text
codes String.[] = []
codes (String.◌∷◌ c s) = code c ∷ codes s

unfoldable pub text_eq : Text → Text → Bool
text_eq [] [] = true
text_eq [] (y ∷ t) = false
text_eq (x ∷ s) [] = false
text_eq (x ∷ s) (y ∷ t) = x == y && text_eq s t

pub text_eq_refl : (s : Text) → text_eq s s ≡ true
unfolding text_eq
text_eq_refl [] = refl
text_eq_refl (x ∷ s) = ground (arith, text_eq_refl s)

eq-text_eq : (s t : Text) → text_eq s t ≡ true → s ≡ t
unfolding text_eq
eq-text_eq [] [] h = refl
eq-text_eq [] (y ∷ t) h = cc
eq-text_eq (x ∷ s) [] h = cc
eq-text_eq (x ∷ s) (y ∷ t) h = ground (arith, eq-text_eq s t)

text_eq-eq : (s t : Text) → s ≡ t → text_eq s t ≡ true
text_eq-eq s t h = rw h (text_eq_refl t)

pub text_eq_iff : (s t : Text) → (text_eq s t ≡ true) ↔ (s ≡ t)
text_eq_iff s t = (eq-text_eq s t, text_eq-eq s t)

abbrev pub is_empty : Text → Bool
is_empty [] = true
is_empty (x ∷ s) = false

-- strings.Split at one byte: the pieces between its occurrences.
abbrev cons_head : ℕ → List Text → List Text
cons_head c [] = (c ∷ []) ∷ []
cons_head c (p ∷ ps) = (c ∷ p) ∷ ps

unfoldable pub split : ℕ → Text → List Text
split sep [] = [] ∷ []
split sep (c ∷ s) = let rest = split sep s in if c == sep then [] ∷ rest else cons_head c rest

-- No byte of the text is this one.
abbrev pub Lacks : ℕ → Text → Type 0
Lacks sep [] = Unit {0}
Lacks sep (c ∷ s) = (c ≢ sep) × Lacks sep s

split-Lacks : (sep : ℕ) (s : Text) → Lacks sep s → split sep s ≡ s ∷ []
unfolding split
split-Lacks sep [] h = refl
split-Lacks sep (c ∷ s) h = ground (arith, split-Lacks sep s h.1)

-- A text of two parts around one separator splits into these.
pub split-pair :
    (sep : ℕ) (s t : Text) → Lacks sep s → Lacks sep t → split sep (s ++ (sep ∷ t)) ≡ s ∷ t ∷ []
unfolding split
split-pair sep [] t hs ht = ground (arith, split-Lacks sep t ht)
split-pair sep (c ∷ s) t hs ht = ground (arith, split-pair sep s t hs.1 ht)

-- strings.Trim with the cutset of newline, tab and space.
abbrev is_blank : ℕ → Bool
is_blank c = c == 10 || c == 9 || c == 32

trim_left : Text → Text
trim_left [] = []
trim_left (c ∷ s) = let rest = trim_left s in if is_blank c then rest else c ∷ s

unfoldable pub trim : Text → Text
unfolding trim_left
trim s = reverse (trim_left (reverse (trim_left s)))
