-- ===== src/Common/Decimal.antt =====
-- Decimal text: what fmt's %d prints of an unsigned number, and strconv.ParseInt in base 10.
use Prim.Native.Nat.{ℕ, zero, suc, ◌+◌, ◌-◌, ◌*◌, ◌/◌, ◌%◌, ◌≤◌, ◌<◌}
use mathlib.Core.Path.{◌≡◌, refl, ap, ◌∙◌}
use mathlib.Core.Logic.{inl, inr}
use mathlib.Core.Bool.{Bool, ◌&&◌}
use mathlib.Core.Option.{Option, none, some}
use mathlib.Core.List.{[], ◌∷◌}
use native.Mathlib.Omega.{arith}
use teller.Common.Tests.{ltb, leb, ◌==◌, if◌then◌else◌, Bool-cases}
use teller.Common.Strings.{Text, Lacks}
use teller.Common.Words.{i64_half, u64_mod}

-- Digits are put in front of what follows; the fuel counts the rounds.
unfoldable pub digits : ℕ → ℕ → Text → Text
digits zero n rest = rest
digits (suc f) n rest =
    let more = digits f (n / 10) ((48 + n % 10) ∷ rest) in
    if ltb n 10 then (48 + n) ∷ rest else more

unfoldable pub decimal : ℕ → Text
unfolding digits
decimal n = digits (suc n) n []

abbrev pub is_digit : ℕ → Bool
is_digit c = leb 48 c && leb c 57

unfoldable pub parse_digits : ℕ → Text → Option ℕ
parse_digits acc [] = some acc
parse_digits acc (c ∷ s) =
    let rest = parse_digits (acc * 10 + (c - 48)) s in if is_digit c then rest else none

-- At least one digit, and a value in range.
unfoldable pub parse_magnitude : ℕ → Text → Option ℕ
unfolding parse_digits
parse_magnitude bound [] = none
parse_magnitude bound (c ∷ s) = elim (parse_digits 0 (c ∷ s)) [
  | none ↦ none
  | some n ↦ if ltb n bound then some n else none
]

abbrev negate : Option ℕ → Option ℕ
negate none = none
negate (some n) = some ((u64_mod - n) % u64_mod)

-- ParseInt(s, 10, 64), as a bit pattern.
unfoldable pub parse_int64 : Text → Option ℕ
unfolding parse_magnitude
parse_int64 [] = none
parse_int64 (c ∷ s) =
    if c == 45
    then negate (parse_magnitude (suc i64_half) s)
    else if c == 43
    then parse_magnitude i64_half s
    else parse_magnitude i64_half (c ∷ s)

parse_digits-digit :
    (n : ℕ) (rest : Text) → parse_digits (n / 10) ((48 + n % 10) ∷ rest) ≡ parse_digits n rest
unfolding parse_digits
parse_digits-digit n rest =
    let back : n / 10 * 10 + (48 + n % 10 - 48) ≡ n = omega arith in rw back (ground (arith, back))

-- Reading what was printed goes on with the number read.
pub parse_digits-digits :
    (f n : ℕ) (rest : Text) → n < f → parse_digits 0 (digits f n rest) ≡ parse_digits n rest
unfolding digits
parse_digits-digits zero n rest h = absurd (omega arith)
parse_digits-digits (suc f) n rest h = elim (Bool-cases (ltb n 10)) [
  | inl small ↦ rw small (unfold parse_digits in ground arith)
  | inr large ↦ rw large (
      parse_digits-digits f (n / 10) ((48 + n % 10) ∷ rest) (ground arith)
      ∙ parse_digits-digit n rest)
]

parse_digits-decimal : (n : ℕ) → parse_digits 0 (decimal n) ≡ some n
unfolding decimal parse_digits
parse_digits-decimal n = parse_digits-digits (suc n) n [] (omega arith)

-- Two numbers with one decimal text are one number.
pub decimal-injective : (m n : ℕ) → decimal m ≡ decimal n → m ≡ n
decimal-injective m n e = cc (parse_digits-decimal m, parse_digits-decimal n, ap (parse_digits 0) e)

-- The first byte of a decimal text is a digit.
digits-head :
    (f n : ℕ) (rest : Text)
    → n < f
    → (c : ℕ) × (s : Text) × (digits f n rest ≡ c ∷ s) × (48 ≤ c) × (c < 58)
unfolding digits
digits-head zero n rest h = absurd (omega arith)
digits-head (suc f) n rest h = elim (Bool-cases (ltb n 10)) [
  | inl small ↦ (48 + n, rest, rw small, omega arith, ground arith)
  | inr large ↦
      let (c, s, e, lo, hi) = digits-head f (n / 10) ((48 + n % 10) ∷ rest) (ground arith) in
      (c, s, rw large e, lo, hi)
]

parse_int64-unsigned :
    (c : ℕ) (s : Text) → 48 ≤ c → parse_int64 (c ∷ s) ≡ parse_magnitude i64_half (c ∷ s)
unfolding parse_int64
parse_int64-unsigned c s h = ground arith

parse_magnitude-cons :
    (bound n c : ℕ) (s : Text)
    → parse_digits 0 (c ∷ s) ≡ some n
    → n < bound
    → parse_magnitude bound (c ∷ s) ≡ some n
unfolding parse_magnitude
parse_magnitude-cons bound n c s e h = ground arith

-- ParseInt reads back what %d prints, within the range of an int64.
pub parse_int64-decimal : (n : ℕ) → n < i64_half → parse_int64 (decimal n) ≡ some n
unfolding decimal
parse_int64-decimal n h =
    let (c, s, e, lo, hi) = digits-head (suc n) n [] (omega arith) in
    rw e (
      parse_int64-unsigned c s lo
      ∙ parse_magnitude-cons i64_half n c s (rw e at (parse_digits-decimal n)) h)

digits-Lacks : (f n sep : ℕ) (rest : Text) → 57 < sep → Lacks sep rest → Lacks sep (digits f n rest)
unfolding digits
digits-Lacks zero n sep rest h r = r
digits-Lacks (suc f) n sep rest h r = elim (Bool-cases (ltb n 10)) [
  | inl small ↦ rw small ((λ e. ground arith), r)
  | inr large ↦
      rw large (digits-Lacks f (n / 10) sep ((48 + n % 10) ∷ rest) h ((λ e. omega arith), r))
]

-- A decimal text has no byte above those of the digits.
pub decimal-Lacks : (n sep : ℕ) → 57 < sep → Lacks sep (decimal n)
unfolding decimal
decimal-Lacks n sep h = digits-Lacks (suc n) n sep [] h tt

decimal_test : decimal 4070 ≡ 52 ∷ 48 ∷ 55 ∷ 48 ∷ []
unfolding decimal
decimal_test = refl
