-- ===== src/Common/Maps.antt =====
-- Go maps from strings, as association lists. What a `range` over one visits comes in their order.
use mathlib.Core.Path.{◌≡◌, refl}
use mathlib.Core.Option.{Option, none, some}
use mathlib.Core.List.{List, [], ◌∷◌}
use native.Mathlib.Omega.{arith}
use teller.Common.Tests.{if◌then◌else◌}
use teller.Common.Strings.{Text, text_eq, text_eq_iff}

abbrev pub StringMap : Type 0 → Type 0
StringMap V = List (Text × V)

module _ {V : Type 0} where
  -- v, ok := m[k]
  unfoldable pub find : Text → StringMap V → Option V
  find k [] = none
  find k ((j, v) ∷ m) = let rest = find k m in if text_eq j k then some v else rest

  -- m[k] = v
  unfoldable pub set : Text → V → StringMap V → StringMap V
  set k v [] = (k, v) ∷ []
  set k v ((j, w) ∷ m) = let rest = set k v m in if text_eq j k then (j, v) ∷ m else (j, w) ∷ rest

  pub find-set :
      (k j : Text) (v : V) (m : StringMap V)
      → find j (set k v m) ≡ (if text_eq k j then some v else find j m)
  unfolding find set
  find-set k j v [] = refl
  find-set k j v ((i, w) ∷ m) =
      ground (arith, find-set k j v m, text_eq_iff i k, text_eq_iff i j, text_eq_iff k j)
