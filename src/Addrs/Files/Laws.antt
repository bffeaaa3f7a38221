-- ===== src/Addrs/Files/Laws.antt =====
-- What reading and checking a file of addresses comes to (loadAddresses, verifyBTCAddresses,
-- verifySKYAddresses).
use teller.Common.{
  Bool, true, false, ◌≡◌, ◌≢◌, ◌↔◌, inl, inr, refl, ap, Bool-cases, some, List, [], ◌∷◌, ◌++◌, Text,
  text_eq_iff, length, get_elem?-append, erase_at-append, length-append_one, split, All, ok, arith,
  if◌then◌else◌,
}
use teller.Addrs.Files.{
  is_skipped, skip_at, skip_lines, load_addresses, in_map, verify_each, verify_addresses,
}

-- The lines that are neither blank nor comments.
abbrev pub kept : List Text → List Text
kept [] = []
kept (line ∷ lines) = let rest = kept lines in if is_skipped line then rest else line ∷ rest

append_one : (l r : List Text) (x : Text) → (l ++ (x ∷ [])) ++ r ≡ l ++ (x ∷ r)
append_one [] r x = refl
append_one (y ∷ l) r x = ap (◌∷◌ y) (append_one l r x)

append_nil : (l : List Text) → l ++ [] ≡ l
append_nil [] = refl
append_nil (y ∷ l) = ap (◌∷◌ y) (append_nil l)

skip_at-append :
    (pre : List Text) (line : Text) (lines : List Text)
    → skip_at (length pre) (pre ++ (line ∷ lines)) line ≡ (
        if is_skipped line
        then (length pre, pre ++ lines)
        else (length (pre ++ (line ∷ [])), (pre ++ (line ∷ [])) ++ lines))
unfolding skip_at
skip_at-append pre line lines = ground (
  arith,
  erase_at-append pre (line ∷ lines),
  length-append_one pre line,
  append_one pre lines line,
)

skip_lines-kept :
    (pre lines : List Text)
    → skip_lines (length lines) (length pre) (pre ++ lines) ≡ some (pre ++ kept lines)
unfolding skip_lines
skip_lines-kept pre [] = ground (arith, get_elem?-append pre [])
skip_lines-kept pre (line ∷ lines) = elim (Bool-cases (is_skipped line)) [
  | inl skipped ↦ ground (
    arith,
    get_elem?-append pre (line ∷ lines),
    skip_at-append pre line lines,
    skip_lines-kept pre lines,
  )
  | inr real ↦ ground (
    arith,
    get_elem?-append pre (line ∷ lines),
    skip_at-append pre line lines,
    skip_lines-kept (pre ++ (line ∷ [])) lines,
    append_one pre (kept lines) line,
  )
]

-- For every text, the loop of loadAddresses that removes lines in place comes to its end, and
-- leaves the lines that are neither blank nor comments, in their order.
pub load_addresses-kept : (all : Text) → load_addresses all ≡ some (kept (split b'\n' all))
unfolding load_addresses
load_addresses-kept all = skip_lines-kept [] (split b'\n' all)

-- All the addresses of a list decode, and none stands behind itself or among those before.
abbrev pub Valid : (Text → Bool) → List Text → List Text → Type 0
Valid decodes seen [] = Unit
Valid decodes seen (a ∷ l) =
    All (λ (x : Text). x ≢ a) seen × (decodes a ≡ true) × Valid decodes (a ∷ seen) l

in_map_iff :
    (a : Text) (seen : List Text) → (in_map a seen ≡ false) ↔ All (λ (x : Text). x ≢ a) seen
unfolding in_map
in_map_iff a [] = (λ h. tt, λ h. refl)
in_map_iff a (x ∷ seen) = (
  λ h. (ground (arith, text_eq_iff x a), (in_map_iff a seen).0 (ground arith)),
  λ h. ground (arith, text_eq_iff x a, h.0, (in_map_iff a seen).1 h.1),
)

verify_each_iff :
    (decodes : Text → Bool) (seen l : List Text)
    → (verify_each decodes seen l ≡ ok tt) ↔ Valid decodes seen l
unfolding verify_each
verify_each_iff decodes seen [] = (λ h. tt, λ h. refl)
verify_each_iff decodes seen (a ∷ l) = (
  λ h. (
    (in_map_iff a seen).0 (ground arith),
    ground arith,
    (verify_each_iff decodes (a ∷ seen) l).0 (ground arith),
  ),
  λ h. ground (arith, (in_map_iff a seen).1 h.0, h.1, (verify_each_iff decodes (a ∷ seen) l).1 h.2),
)

-- For every decoder, verifyBTCAddresses and verifySKYAddresses take a list exactly when it is
-- not empty, each address decodes, and each differs from all those before it.
pub verify_addresses_iff :
    (decodes : Text → Bool) (l : List Text)
    → (verify_addresses decodes l ≡ ok tt) ↔ ((l ≢ []) × Valid decodes [] l)
unfolding verify_addresses
verify_addresses_iff decodes [] = (λ h. cc, λ h. absurd (h.0 refl))
verify_addresses_iff decodes (a ∷ l) = (
  λ h. (λ bad. cc, (verify_each_iff decodes [] (a ∷ l)).0 h),
  λ h. (verify_each_iff decodes [] (a ∷ l)).1 h.1,
)
