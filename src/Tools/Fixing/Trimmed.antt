-- ===== src/Tools/Fixing/Trimmed.antt =====
-- Cutting blanks twice is cutting them once (cmd/dbfix/dbfix.go).
use teller.Common.{
  ◌≡◌, ap, ◌∙◌, refl, arith, Bool-cases, inl, inr, [], ◌∷◌, Text, is_empty, ◌&&◌, text_eq_refl,
  none, some, Bool,
}
use teller.Tools.Fixing.{is_cut, cut_left, cut_right, cut_both, fix_address}

cut_right_twice : (s : Text) → cut_right (cut_right s) ≡ cut_right s
unfolding cut_right
cut_right_twice [] = refl
cut_right_twice (c ∷ s) = elim (Bool-cases (is_empty (cut_right s) && is_cut c)) [
  | inl gone ↦ rw (cut_right, gone) refl
  | inr kept ↦ ground (arith, cut_right_twice s)
]

cut_left-cut_right : (s : Text) → cut_left (cut_right (cut_left s)) ≡ cut_right (cut_left s)
unfolding cut_left cut_right
cut_left-cut_right [] = refl
cut_left-cut_right (c ∷ s) = ground (arith, cut_left-cut_right s)

pub cut_both_twice : (s : Text) → cut_both (cut_both s) ≡ cut_both s
unfolding cut_both
cut_both_twice s = ap cut_right (cut_left-cut_right s) ∙ cut_right_twice (cut_left s)

-- An address that was repaired is not repaired again.
pub fix_address_again :
    (decodes : Text → Bool) (a x : Text)
    → fix_address decodes a ≡ some x
    → fix_address decodes x ≡ none
unfolding fix_address
fix_address_again decodes a x h = ground (arith, cut_both_twice a, text_eq_refl (cut_both a))
