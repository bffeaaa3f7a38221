-- ===== src/Common/Results.antt =====
-- Go's `error` values as a data type, and a value or an error.
use mathlib.Core.Path.{◌≡◌, refl}
use mathlib.Core.Logic.{◌⊎◌, inl, inr}

-- The error values that the program compares or returns. What is only formatted for a log
-- is one constructor for each place.
pub data Error : Type 0 where
  -- dbutil
  bucket_not_exist object_not_exist decode_failed bolt_failed commit_failed : Error
  -- scanner
  unsupported_coin_type deposit_exists duplicate_deposit_address deposit_key_mismatch : Error
  scanner_quit txindex_disabled next_hash_empty scanner_exists unknown_coin_type : Error
  -- exchange
  address_already_bound no_bound_address coin_type_mismatch deposit_info_exists : Error
  deposit_info_key_mismatch seq_missing kitty_id_missing deposit_address_missing : Error
  deposit_id_missing deposit_id_invalid deposit_value_zero txid_missing : Error
  status_invalid empty_send_amount no_response not_confirmed deposit_status_invalid : Error
  -- addrs
  deposit_address_empty coin_type_not_registered coin_type_exists : Error
  no_addresses duplicate_address invalid_address : Error
  -- agent
  max_reservations_exceeded box_already_reserved invalid_coin_type reservation_not_found : Error
  invalid_reservation_type deposit_address_not_found user_not_found verification_failed : Error
  verify_timed_out satisfy_failed satisfy_timed_out : Error
  -- teller
  box_already_bound bind_disabled : Error
  -- an error of the node, the wallet or another service, and one that sender.RPCError wraps
  rpc_error service_failed : Error
  -- fmt.Errorf with another error in its text
  wrapped : Error → Error

pub data Result {ℓ} (V : Type ℓ) : Type ℓ where
  err : Error → Result V
  ok : V → Result V

infixl 5 ◌>>◌ ◌>>=◌
module _ {ℓ κ} {V : Type ℓ} {W : Type κ} where
  -- `if err != nil { return err }` between two calls
  abbrev pub ◌>>=◌ : Result V → (V → Result W) → Result W
  ◌>>=◌ (err failure) next = err failure
  ◌>>=◌ (ok value) next = next value

module _ {κ} {W : Type κ} where
  abbrev pub ◌>>◌ : Result (Unit {0}) → Result W → Result W
  ◌>>◌ (err failure) next = err failure
  ◌>>◌ (ok done) next = next

module _ {ℓ} {V : Type ℓ} where
  pub Result-cases : (r : Result V) → ((e : Error) × (r ≡ err e)) ⊎ ((a : V) × (r ≡ ok a))
  Result-cases (err e) = inl (e, refl)
  Result-cases (ok a) = inr (a, refl)
