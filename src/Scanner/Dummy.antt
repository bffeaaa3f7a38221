-- ===== src/Scanner/Dummy.antt =====
-- src/scanner/dummy.go: the scanner that stands in for the coins' nodes. The sets are lists without
-- order; `decodes` is BitcoinDecodeBase58Address.
use teller.Common.{
  ℕ, Bool, Option, none, some, List, [], ◌∷◌, ◌++◌, length, Text, is_empty, parse_int64, ltb,
  ltb_i64, u32_mod, Result, ok, err, duplicate_deposit_address, invalid_coin_type, if◌then◌else◌,
}
use teller.Scanner.Types.{Deposit, coin_btc, unset}
use teller.Scanner.Store.{listed}

pub record DummyScanner : Type 0 where
  pub addrs : List Text
  pub addrs_map : List Text
  pub deposits : List Deposit
  pub coin_types : List Text

unfoldable pub new_dummy_scanner : DummyScanner
new_dummy_scanner = record { addrs = []; addrs_map = []; deposits = []; coin_types = [] }

unfoldable pub register_coin_type : Text → DummyScanner → DummyScanner
register_coin_type coin_type s = record s { coin_types = coin_type ∷ s.coin_types }

unfoldable pub dummy_add_scan_address :
    Text → Text → DummyScanner → Result (Unit {0}) × DummyScanner
dummy_add_scan_address addr coin_type s =
    if listed coin_type s.coin_types
    then (if listed addr s.addrs_map
        then (err duplicate_deposit_address, s)
        else (ok tt, record s { addrs_map = addr ∷ s.addrs_map; addrs = s.addrs ++ (addr ∷ []) }))
    else (err invalid_coin_type, s)

-- The values of the form.
pub record DepositForm : Type 0 where
  pub coin : Text
  pub addr : Text
  pub value : Text
  pub height : Text
  pub tx : Text
  pub n : Text

abbrev pub not_negative : Option ℕ → Option ℕ
not_negative none = none
not_negative (some v) = if ltb_i64 v 0 then none else some v

abbrev pub within_u32 : Option ℕ → Option ℕ
within_u32 none = none
within_u32 (some v) = if ltb v u32_mod then some v else none

-- n is 0 where it is left out.
abbrev pub output_number : Text → Option ℕ
output_number n = if is_empty n then some 0 else within_u32 (not_negative (parse_int64 n))

abbrev pub coin_or_btc : Text → Text
coin_or_btc coin = if is_empty coin then coin_btc else coin

module _ (decodes : Text → Bool) where
  -- The deposit of a form, `none` for an answer with the code 400.
  deposit_of : DepositForm → Option ℕ → Option ℕ → Option ℕ → Option Deposit
  deposit_of f none height n = none
  deposit_of f (some value) none n = none
  deposit_of f (some value) (some height) none = none
  deposit_of f (some value) (some height) (some n) =
      if is_empty f.addr
      then none
      else if decodes f.addr
      then (if is_empty f.tx
          then none
          else some (record {
            coin_type = coin_or_btc f.coin;
            address = f.addr;
            value = value;
            height = height;
            tx = f.tx;
            n = n;
            status = unset;
          }))
      else none

  -- addDepositHandler; a code, `none` for 200. An empty number does not parse.
  unfoldable pub add_deposit_handler : DepositForm → DummyScanner → Option ℕ × DummyScanner
  unfolding deposit_of
  add_deposit_handler f s =
      elim (deposit_of f (not_negative (parse_int64 f.value)) (not_negative (parse_int64 f.height))
        (output_number f.n)) [
          | none ↦ (some 400, s)
          | some dv ↦
              (if ltb (length s.deposits) 100
                then (none, record s { deposits = s.deposits ++ (dv ∷ []) })
                else (some 503, s))
        ]
