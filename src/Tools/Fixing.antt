-- ===== src/Tools/Fixing.antt =====
-- cmd/dbfix/dbfix.go: addresses with blanks around them are repaired. The two functions for the two
-- buckets are one here: `read` is the address of a value, `write` puts another in its place.
-- cipher.DecodeBase58Address is `decodes`; keys that ForEach has passed are taken to stay valid.
pub mod Trimmed
pub mod Keys
pub mod Repaired
use teller.Common.{
  ℕ, ◌==◌, ◌&&◌, ◌||◌, Bool, Option, none, some, List, [], ◌∷◌, Text, text_eq, is_empty, Result, ok,
  err, Error, bucket_not_exist, bolt_failed, commit_failed, if◌then◌else◌,
}
use teller.Bolt.{Bolt}
use teller.Exchange.Types.{DepositInfo}

-- The characters "\n\t " of strings.Trim.
abbrev pub is_cut : ℕ → Bool
is_cut c = (c == 10) || ((c == 9) || (c == 32))

unfoldable pub cut_left : Text → Text
cut_left [] = []
cut_left (c ∷ s) = let rest = cut_left s in if is_cut c then rest else c ∷ s

unfoldable pub cut_right : Text → Text
cut_right [] = []
cut_right (c ∷ s) = let rest = cut_right s in if is_empty rest && is_cut c then [] else c ∷ rest

unfoldable pub cut_both : Text → Text
cut_both a = cut_right (cut_left a)

module _ (decodes : Text → Bool) where
  -- `none` is an error.
  unfoldable pub fix_address : Text → Option Text
  fix_address a =
      if decodes (cut_both a)
      then (if text_eq (cut_both a) a then none else some (cut_both a))
      else none

  module _ ⦃b : Bolt⦄ {V : Type 0} (read : V → Text) (write : V → Text → V) where
    -- What ForEach collects.
    unfoldable pub invalid_keys : List (Text × V) → List Text
    invalid_keys [] = []
    invalid_keys ((k, v) ∷ l) =
        let rest = invalid_keys l in if decodes (read v) then rest else k ∷ rest

    unfoldable pub fix_value : b.Bucket V → Text → V → Option (b.Bucket V)
    fix_value t k v = elim (fix_address (read v)) [
      | none ↦ none
      | some addr ↦ b.put t k (write v addr)
    ]

    unfoldable pub fix_key : b.Bucket V → Text → Option (b.Bucket V)
    fix_key t k = elim (b.get t k) [ none ↦ none | some v ↦ fix_value t k v ]

    unfoldable pub fix_keys : b.Bucket V → List Text → Option (b.Bucket V)
    fix_keys t [] = some t
    fix_keys t (k ∷ ks) = elim (fix_key t k) [ none ↦ none | some u ↦ fix_keys u ks ]

    -- The bucket after the two transactions, none of which changes it on an error.
    unfoldable pub fix_bkt : Option (b.Bucket V) → Result (b.Bucket V)
    fix_bkt none = err bucket_not_exist
    fix_bkt (some t) = elim (fix_keys t (invalid_keys (b.entries t))) [
      | none ↦ err bolt_failed
      | some u ↦ if b.commits u then ok u else err commit_failed
    ]

  module _ ⦃b : Bolt⦄ where
    -- fixBindAddressBkt reads the values as they stand in the file.
    unfoldable pub fix_bind_address_bkt : Option (b.Bucket Text) → Result (b.Bucket Text)
    fix_bind_address_bkt = fix_bkt (λ v. v) (λ v addr. addr)

    unfoldable pub fix_deposit_info_bkt :
        Option (b.Bucket DepositInfo) → Result (b.Bucket DepositInfo)
    fix_deposit_info_bkt =
        fix_bkt (λ di. di.owner_address) (λ di addr. record di { owner_address = addr })

    after_bind_address :
        Option (b.Bucket Text)
        → Option (b.Bucket DepositInfo)
        → Result (b.Bucket Text)
        → Option Error × Option (b.Bucket Text) × Option (b.Bucket DepositInfo)
    after_bind_address raw infos (err e) = (some e, raw, infos)
    after_bind_address raw infos (ok t) = elim (fix_deposit_info_bkt infos) [
      | err e ↦ (some e, some t, infos)
      | ok u ↦ (none, some t, some u)
    ]

    -- fixSkyAddrWhitespace
    unfoldable pub fix_sky_addr_whitespace :
        Option (b.Bucket Text)
        → Option (b.Bucket DepositInfo)
        → Option Error × Option (b.Bucket Text) × Option (b.Bucket DepositInfo)
    unfolding after_bind_address
    fix_sky_addr_whitespace raw infos = after_bind_address raw infos (fix_bind_address_bkt raw)
