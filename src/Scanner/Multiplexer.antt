-- ===== src/Scanner/Multiplexer.antt =====
-- The registry of src/scanner/multiplexer.go: the scanners under their coin types, and their number.
-- A scanner is there by its coin type; nil, which AddScanner refuses, is left out.
pub mod Merging
pub mod Order
pub mod Closing
use teller.Common.{
  ℕ, ◌+◌, ◌≡◌, arith, Bool, Bool-cases, inl, inr, List, [], ◌∷◌, ◌++◌, length, length-append_one,
  Text, Result, ok, err, scanner_exists, if◌then◌else◌,
}
use teller.Scanner.Store.{listed}

pub record Multiplexer : Type 0 where
  pub coins : List Text
  pub scanner_count : ℕ  -- int

unfoldable pub new_multiplexer : Multiplexer
new_multiplexer = record { coins = []; scanner_count = 0 }

unfoldable pub add_scanner : Text → Multiplexer → Result (Unit {0}) × Multiplexer
add_scanner coin_type m = if listed coin_type m.coins then (err scanner_exists, m) else (
  ok tt,
  record { coins = m.coins ++ (coin_type ∷ []); scanner_count = m.scanner_count + 1 },
)

-- GetScanner, which is nil for a coin type that was not added.
unfoldable pub get_scanner : Text → Multiplexer → Bool
get_scanner coin_type m = listed coin_type m.coins

abbrev pub IsCounted : Multiplexer → Type 0
IsCounted m = length m.coins ≡ m.scanner_count

-- Every call of AddScanner keeps the number of the scanners true.
pub add_scanner-IsCounted :
    (coin_type : Text) (m : Multiplexer) → IsCounted m → IsCounted (add_scanner coin_type m).1
unfolding add_scanner
add_scanner-IsCounted coin_type m h = elim (Bool-cases (listed coin_type m.coins)) [
  | inl there ↦ ground arith
  | inr new ↦ ground (arith, length-append_one m.coins coin_type)
]
