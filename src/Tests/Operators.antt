-- ===== src/Tests/Operators.antt =====
-- The operators' programs on buckets in memory, and the start of a scanner.
use teller.Common.{◌≡◌, ◌↔◌, ◌≤◌, ◌<◌, refl, some, none, [], ◌∷◌, length, Text, text_eq, ok, Bool}
use teller.Dbutil.{put_bucket_value, for_each, fold_entries, create_bucket_if_not_exists}
use teller.Exchange.Types.{DepositInfo}
use teller.Scanner.Base.Beginning.{ScanConfig, begin, scanning, waits, begin_iff}
use teller.Tools.Fixing.{
  cut_left, cut_right, cut_both, fix_address, invalid_keys, fix_value, fix_key, fix_keys, fix_bkt,
  fix_deposit_info_bkt,
}
use teller.Tools.Fixing.Repaired.{Repaired, fix_deposit_info_bkt-Repaired}
use teller.Tools.Renaming.{copy_entry, committed, rename_bucket}
use teller.Tools.Renaming.Renamed.{Renamed, rename_bucket-Renamed}
use teller.Tests.Memory.{Table, memory}
use teller.Tests.Exchanges.{table, addr, deposit_id, di, dv}
use teller.Tests.Runs.{block, db1}
use teller.Tests.Turns.{unprocessed}

abbrev is_address : Text → Bool
is_address a = text_eq a addr

-- An address with a blank before it.
abbrev spaced : Table DepositInfo
spaced = table ((deposit_id, record di { owner_address = 32 ∷ addr }) ∷ [])

abbrev repaired : Table DepositInfo
repaired = record spaced { rows = (deposit_id, record di { owner_address = addr }) ∷ spaced.rows }

repairs : fix_deposit_info_bkt is_address (some spaced) ≡ ok repaired
unfolding fix_deposit_info_bkt fix_bkt fix_keys fix_key fix_value invalid_keys fix_address cut_both
    cut_left cut_right text_eq
repairs = refl

fix_deposit_info_bkt-Repaired_example :
    Repaired is_address
      (λ (x : DepositInfo). x.owner_address)
      (λ x a. record x { owner_address = a })
      spaced
      repaired
      deposit_id
fix_deposit_info_bkt-Repaired_example =
    fix_deposit_info_bkt-Repaired is_address spaced repaired repairs deposit_id

abbrev old : Table Text
old = table ((addr, deposit_id) ∷ [])

abbrev renamed : Table Text
renamed = table ((addr, deposit_id) ∷ [])

renames : rename_bucket (some old) none ≡ (ok tt, some renamed)
unfolding rename_bucket committed copy_entry put_bucket_value for_each fold_entries
    create_bucket_if_not_exists text_eq
renames = refl

rename_bucket-Renamed_example : Renamed old renamed none addr
rename_bucket-Renamed_example = rename_bucket-Renamed old none renames addr

abbrev one_place : ScanConfig
one_place = record {
  scan_period = 1;
  deposit_buffer_size = 1;
  initial_scan_height = 7;
  confirmations_required = 3;
}

begin_iff_example :
    ((begin none one_place (ok block) db1 ≡ scanning block (dv ∷ [])) ↔ (length (dv ∷ []) ≤ 1))
    × ((begin none one_place (ok block) db1 ≡ waits) ↔ (1 < length (dv ∷ [])))
begin_iff_example = begin_iff one_place block db1 unprocessed
