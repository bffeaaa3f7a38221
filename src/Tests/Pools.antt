-- ===== src/Tests/Pools.antt =====
-- Two deposit addresses from a pool, and a file of addresses with blanks and comments.
use teller.Common.{
  All, AllDiffer, ◌≡◌, ◌≢◌, ◌↔◌, refl, some, List, [], ◌∷◌, Bool, true, false, Text, text_eq, ok,
  split, codes, get_elem?,
}
use teller.Dbutil.{put_bucket_value, bucket_has_key}
use teller.Db.{Db, empty_db}
use teller.Db.Access.{put_object, has_key, update, read_only}
use teller.Db.Buckets.{used_btc_address_bkt}
use teller.Addrs.{put_with_tx, put, is_used, choose, chosen, taken, new_address}
use teller.Addrs.Pool.{IsField}
use teller.Addrs.Calls.{PoolCall, take, restart, IsFree, hand_out, hand_out-AllDiffer}
use teller.Addrs.Files.{
  load_addresses, verify_addresses, is_skipped, after_spaces, space_width, byte_or_0,
}
use teller.Addrs.Files.Laws.{kept, load_addresses-kept, Valid, verify_addresses_iff}
use teller.Tests.Memory.{memory}

abbrev with_used : List (Text × Text) → Db
with_used rows = record empty_db { used_btc_address = some (record { rows = rows; counter = 0 }) }

abbrev one : Text
one = 49 ∷ []

abbrev two : Text
two = 50 ∷ []

abbrev three : Text
three = 51 ∷ []

-- The first address of the pool is used.
abbrev db0 : Db
db0 = with_used ((one, []) ∷ [])

abbrev db1 : Db
db1 = with_used ((two, []) ∷ (one, []) ∷ [])

abbrev db2 : Db
db2 = with_used ((three, []) ∷ (two, []) ∷ (one, []) ∷ [])

is_field : IsField used_btc_address_bkt
is_field db t = refl

first : new_address used_btc_address_bkt (one ∷ two ∷ three ∷ []) db0 ≡ (ok two, three ∷ [], db1)
unfolding new_address chosen choose is_used put put_with_tx put_object put_bucket_value has_key
    bucket_has_key update read_only text_eq
first = refl

abbrev calls : List PoolCall
calls = take ∷ restart (one ∷ two ∷ three ∷ []) ∷ take ∷ take ∷ []

handed_out : hand_out used_btc_address_bkt calls (one ∷ two ∷ []) db0 ≡ two ∷ three ∷ []
unfolding hand_out new_address taken chosen choose is_used put put_with_tx put_object
    put_bucket_value has_key bucket_has_key update read_only text_eq
handed_out = refl

hand_out-AllDiffer_example :
    AllDiffer (hand_out used_btc_address_bkt calls (one ∷ two ∷ []) db0)
    × All
        (IsFree used_btc_address_bkt db0)
        (hand_out used_btc_address_bkt calls (one ∷ two ∷ []) db0)
hand_out-AllDiffer_example =
    hand_out-AllDiffer used_btc_address_bkt calls (one ∷ two ∷ []) db0 is_field

abbrev file : Text
file = codes "# a\n1\n\n2"

load_addresses-kept_example : load_addresses file ≡ some (kept (split b'\n' file))
load_addresses-kept_example = load_addresses-kept file

abbrev short : Text → Bool
short a = true

verify_addresses_iff_example :
    (verify_addresses short (one ∷ two ∷ []) ≡ ok tt)
    ↔ (((one ∷ two ∷ []) ≢ []) × Valid short [] (one ∷ two ∷ []))
verify_addresses_iff_example = verify_addresses_iff short (one ∷ two ∷ [])

-- A line that is only a carriage return is blank, so is one of a no-break space and a tab, and a
-- comment may come after spaces of Unicode.
return_skipped : is_skipped (13 ∷ []) ≡ true
unfolding is_skipped after_spaces space_width byte_or_0 get_elem?
return_skipped = refl

no_break_skipped : is_skipped (194 ∷ 160 ∷ 9 ∷ []) ≡ true
unfolding is_skipped after_spaces space_width byte_or_0 get_elem?
no_break_skipped = refl

comment_skipped : is_skipped (226 ∷ 128 ∷ 131 ∷ b'#' ∷ []) ≡ true
unfolding is_skipped after_spaces space_width byte_or_0 get_elem?
comment_skipped = refl

address_kept : is_skipped (32 ∷ 49 ∷ 13 ∷ []) ≡ false
unfolding is_skipped after_spaces space_width byte_or_0 get_elem?
address_kept = refl
