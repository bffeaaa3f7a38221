-- ===== src/Addrs/Files.antt =====
-- The lists of deposit addresses in the files of src/addrs: reading (loadAddresses) and checking
-- (verifyBTCAddresses, verifySKYAddresses).
pub mod Laws
use teller.Common.{
  ℕ, zero, suc, Bool, true, false, ◌||◌, ◌&&◌, leb, ◌==◌, Option, none, some, List, [], ◌∷◌, Text,
  text_eq, is_empty, length, get_elem?, erase_at, split, Result, ok, err, if◌then◌else◌,
  no_addresses, duplicate_address, invalid_address,
}

-- unicode.IsSpace of the character that begins with these bytes of UTF-8; 0 stands for no byte.
abbrev pub is_space_1 : ℕ → Bool
is_space_1 c = (leb 9 c && leb c 13) || c == 32

abbrev pub is_space_2 : ℕ → ℕ → Bool
is_space_2 c d = c == 194 && (d == 133 || d == 160)

abbrev pub is_space_3 : ℕ → ℕ → ℕ → Bool
is_space_3 c d e =
    (c == 225 && (d == 154 && e == 128))
    || ((c == 226
          && (d == 128 && ((leb 128 e && leb e 138) || (e == 168 || (e == 169 || e == 175)))))
        || ((c == 226 && (d == 129 && e == 159)) || (c == 227 && (d == 128 && e == 128))))

abbrev pub byte_or_0 : Option ℕ → ℕ
byte_or_0 none = 0
byte_or_0 (some c) = c

-- How many bytes the space at the front has, 0 for no space.
unfoldable pub space_width : Text → ℕ
space_width s =
    let c = byte_or_0 (get_elem? s 0) in
    let d = byte_or_0 (get_elem? s 1) in
    let e = byte_or_0 (get_elem? s 2) in
    if is_space_1 c then 1 else if is_space_2 c d then 2 else if is_space_3 c d e then 3 else 0

-- What strings.TrimSpace cuts at the front, with the bytes of a space that are still to pass.
unfoldable pub after_spaces : ℕ → Text → Text
unfolding space_width
after_spaces n [] = []
after_spaces (suc n) (c ∷ s) = after_spaces n s
after_spaces zero (c ∷ s) = elim (space_width (c ∷ s)) [ zero ↦ c ∷ s | suc n ↦ after_spaces n s ]

-- a == "" || a[0] == '#', of the trimmed line. The cut at the end changes neither: what is left
-- begins with no space.
unfoldable pub is_skipped : Text → Bool
unfolding after_spaces
is_skipped line = elim (after_spaces 0 line) [ [] ↦ true | c ∷ _ ↦ c == b'#' ]

-- One turn of the loop: `i` and the list behind it. Removing a line and `i--` keep `i` in place.
unfoldable pub skip_at : ℕ → List Text → Text → ℕ × List Text
skip_at i addrs line = if is_skipped line then (i, erase_at addrs i) else (suc i, addrs)

-- The loop while i < len(addrs), on fuel; `none` when that runs out.
unfoldable pub skip_lines : ℕ → ℕ → List Text → Option (List Text)
unfolding skip_at
skip_lines zero i addrs = elim (get_elem? addrs i) [ none ↦ some addrs | some line ↦ none ]
skip_lines (suc fuel) i addrs = elim (get_elem? addrs i) [
  | none ↦ some addrs
  | some line ↦ let (j, l) = skip_at i addrs line in skip_lines fuel j l
]

unfoldable pub load_addresses : Text → Option (List Text)
unfolding skip_lines
load_addresses all = let lines = split b'\n' all in skip_lines (length lines) 0 lines

-- `_, ok := addrMap[addr]`
unfoldable pub in_map : Text → List Text → Bool
in_map a [] = false
in_map a (x ∷ xs) = text_eq x a || in_map a xs

-- The loop of verifyBTCAddresses and verifySKYAddresses. `decodes` is the call of the coin's decoder
-- (github.com/skycoin/skycoin/src/cipher): whether it takes the address.
unfoldable pub verify_each : (Text → Bool) → List Text → List Text → Result (Unit {0})
verify_each decodes seen [] = ok tt
verify_each decodes seen (a ∷ l) =
    let rest = verify_each decodes (a ∷ seen) l in
    if in_map a seen then err duplicate_address else if decodes a then rest else err invalid_address

unfoldable pub verify_addresses : (Text → Bool) → List Text → Result (Unit {0})
unfolding verify_each
verify_addresses decodes [] = err no_addresses
verify_addresses decodes (a ∷ l) = verify_each decodes [] (a ∷ l)
