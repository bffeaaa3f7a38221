-- ===== src/Config.antt =====
-- src/config/config.go: the validation of the configuration. `is_missing` is os.IsNotExist of a file's
-- Stat and `connects` net.Dial of an address; visor.MaxDropletPrecision is `precision`. The errors are
-- constructors in place of their texts. Of each record, the fields that the
-- validation and the HTTP service read.
pub mod Modes
use teller.Common.{
  ℕ, ◌&&◌, ◌||◌, not, Bool, true, false, Option, none, some, List, [], ◌∷◌, ◌++◌, Text, is_empty,
  ltb, ltb_i64, if◌then◌else◌,
}

pub data ConfigError : Type 0 where
  btc_addresses_unset btc_addresses_no_file sky_addresses_unset sky_addresses_no_file : ConfigError
  sky_rpc_unset sky_rpc_unreachable : ConfigError
  btc_server_unset btc_user_unset btc_pass_unset btc_cert_unset btc_cert_no_file : ConfigError
  confirmations_negative initial_height_negative : ConfigError
  decimals_negative decimals_too_large : ConfigError
  no_web_address https_without_tls tls_cert_without_key auto_tls_and_cert tls_without_https :
      ConfigError

pub record Web : Type 0 where
  pub http_addr : Text
  pub https_addr : Text
  pub auto_tls_host : Text
  pub tls_cert : Text
  pub tls_key : Text

pub record BtcRpc : Type 0 where
  pub server : Text
  pub user : Text
  pub pass : Text
  pub cert : Text

pub record BtcScanner : Type 0 where
  pub initial_scan_height : ℕ  -- int64
  pub confirmations_required : ℕ  -- int64
  pub enabled : Bool

pub record Dummy : Type 0 where
  pub scanner : Bool
  pub sender : Bool

pub record Teller : Type 0 where
  pub max_bound_addresses : ℕ  -- int
  pub bind_enabled : Bool

pub record Config : Type 0 where
  pub teller : Teller
  pub btc_addresses : Text
  pub sky_addresses : Text
  pub sky_rpc_address : Text
  pub btc_rpc : BtcRpc
  pub btc_scanner : BtcScanner
  pub max_decimals : ℕ  -- int
  pub web : Web
  pub dummy : Dummy

-- `if failed { oops(e) }`
abbrev pub oops : Bool → ConfigError → List ConfigError
oops failed e = if failed then e ∷ [] else []

-- Web.Validate; `none` is nil.
unfoldable pub web_validate : Web → Option ConfigError
web_validate c =
    if is_empty c.http_addr && is_empty c.https_addr
    then some no_web_address
    else if not (is_empty c.https_addr)
        && is_empty c.auto_tls_host
        && (is_empty c.tls_cert || is_empty c.tls_key)
    then some https_without_tls
    else if (is_empty c.tls_cert && not (is_empty c.tls_key))
        || (not (is_empty c.tls_cert) && is_empty c.tls_key)
    then some tls_cert_without_key
    else if not (is_empty c.auto_tls_host)
        && (not (is_empty c.tls_key) || not (is_empty c.tls_cert))
    then some auto_tls_and_cert
    else if is_empty c.https_addr
        && (not (is_empty c.auto_tls_host) || not (is_empty c.tls_key) || not (is_empty c.tls_cert))
    then some tls_without_https
    else none

-- BoxExchanger.validate, whose second test reads the number as a uint64, and Validate.
unfoldable pub box_errors : ℕ → ℕ → List ConfigError
box_errors precision max_decimals =
    oops (ltb_i64 max_decimals 0) decimals_negative
    ++ oops (ltb precision max_decimals) decimals_too_large

unfoldable pub box_validate : ℕ → ℕ → Option ConfigError
unfolding box_errors
box_validate precision max_decimals = elim (box_errors precision max_decimals) [
  | [] ↦ none
  | e ∷ es ↦ some e
]

-- Config.Redacted, of the credentials
unfoldable pub redacted : Text → Config → Config
redacted mark c = record c {
  btc_rpc = record c.btc_rpc {
    user = if is_empty c.btc_rpc.user then c.btc_rpc.user else mark;
    pass = if is_empty c.btc_rpc.pass then c.btc_rpc.pass else mark;
  };
}

module _ (is_missing connects : Text → Bool) (precision : ℕ) where
  abbrev pub address_errors : Config → List ConfigError
  address_errors c =
      oops (is_empty c.btc_addresses) btc_addresses_unset
      ++ oops (is_missing c.btc_addresses) btc_addresses_no_file
      ++ oops (is_empty c.sky_addresses) sky_addresses_unset
      ++ oops (is_missing c.sky_addresses) sky_addresses_no_file

  abbrev pub sender_errors : Config → List ConfigError
  sender_errors c =
      if c.dummy.sender
      then []
      else oops (is_empty c.sky_rpc_address) sky_rpc_unset
        ++ oops (not (connects c.sky_rpc_address)) sky_rpc_unreachable

  abbrev pub scanner_errors : Config → List ConfigError
  scanner_errors c =
      if not c.dummy.scanner && c.btc_scanner.enabled
      then oops (is_empty c.btc_rpc.server) btc_server_unset
        ++ oops (is_empty c.btc_rpc.user) btc_user_unset
        ++ oops (is_empty c.btc_rpc.pass) btc_pass_unset
        ++ oops (is_empty c.btc_rpc.cert) btc_cert_unset
        ++ oops (is_missing c.btc_rpc.cert) btc_cert_no_file
      else []

  web_errors : Option ConfigError → List ConfigError
  web_errors none = []
  web_errors (some e) = e ∷ []

  -- Config.Validate: it fails with the texts of all of these, if there are any.
  unfoldable pub config_errors : Config → List ConfigError
  unfolding web_errors box_errors web_validate
  config_errors c =
      address_errors c
      ++ sender_errors c
      ++ scanner_errors c
      ++ oops (ltb_i64 c.btc_scanner.confirmations_required 0) confirmations_negative
      ++ oops (ltb_i64 c.btc_scanner.initial_scan_height 0) initial_height_negative
      ++ box_errors precision c.max_decimals
      ++ web_errors (web_validate c.web)
