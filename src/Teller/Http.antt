-- ===== src/Teller/Http.antt =====
-- The HTTP service: what the handlers of src/teller/handlers.go answer, with the helpers of http.go.
-- A handler gets the method, its argument from the URL or the body, and the services that it calls;
-- the writing of the answer to the connection is left out. cipher.DecodeBase58Address is `decodes`.
pub mod Reserve
use teller.Common.{
  ℕ, Bool, true, false, Option, none, some, List, [], ◌∷◌, Text, text_eq, codes, is_empty, trim,
  Result, ok, err, Error, rpc_error, if◌then◌else◌,
}
use teller.Bolt.{Bolt}
use teller.Db.{Db}
use teller.Config.{Config}
use teller.Agent.Types.{Reservation}
use teller.Agent.Managers.{Agent, get_reservations}
use teller.Agent.Queries.{get_kitty_deposit_address}
use teller.Exchange.Facade.{DepositStatus, get_deposit_statuses}

-- The text of an error response: http.StatusText of the code, the text of an error of a service, or
-- one of the handlers' own.
pub data Message : Type 0 where
  status_text : Message
  of_error : Error → Message
  invalid_method missing_sky_addr invalid_sky_addr invalid_content_type invalid_json : Message
  missing_user_address missing_coin_type missing_code invalid_user_address : Message

-- A response with an error code, one with the value that JSONResponse writes, or a handler that has
-- not come to its end.
pub data Response (A : Type 0) : Type 0 where
  failed : ℕ → Message → Response A
  answered : A → Response A
  hanging panicked : Response A

abbrev pub method_get : Text
method_get = codes "GET"

abbrev pub method_post : Text
method_post = codes "POST"

-- validMethod
unfoldable pub valid_method : Text → List Text → Bool
valid_method method [] = false
valid_method method (m ∷ allowed) = if text_eq method m then true else valid_method method allowed

module _ (decodes : Text → Bool) where
  -- verifySkycoinAddress; `none` stands for true.
  unfoldable pub verify_skycoin_address : Text → Option Message
  verify_skycoin_address sky_addr = if decodes sky_addr then none else some invalid_sky_addr

  module _ ⦃b : Bolt⦄ where
    statuses_of : ℕ → Text → Db → Response (List DepositStatus)
    statuses_of now sky_addr db = elim (get_deposit_statuses now sky_addr db) [
      | err e ↦ failed 500 status_text
      | ok dss ↦ answered dss
    ]

    verified : ℕ → Text → Db → Response (List DepositStatus)
    unfolding statuses_of verify_skycoin_address
    verified now sky_addr db = elim (verify_skycoin_address sky_addr) [
      | some m ↦ failed 400 m
      | none ↦ statuses_of now sky_addr db
    ]

    -- StatusHandler; the argument is skyaddr.
    unfoldable pub status_handler : ℕ → Text → Text → Db → Response (List DepositStatus)
    unfolding verified valid_method
    status_handler now method arg db =
        if valid_method method (method_get ∷ [])
        then (if is_empty (trim arg)
            then failed 400 missing_sky_addr
            else verified now (trim arg) db)
        else failed 405 invalid_method

pub record ConfigResponse : Type 0 where
  pub enabled : Bool
  pub btc_confirmations_required : ℕ  -- int64
  pub max_bound_addresses : ℕ  -- int
  pub max_decimals : ℕ  -- int

-- ConfigHandler
unfoldable pub config_handler : Text → Config → Response ConfigResponse
unfolding valid_method
config_handler method cfg =
    if valid_method method (method_get ∷ [])
    then answered (record {
      enabled = cfg.teller.bind_enabled;
      btc_confirmations_required = cfg.btc_scanner.confirmations_required;
      max_bound_addresses = cfg.teller.max_bound_addresses;
      max_decimals = cfg.max_decimals;
    })
    else failed 405 invalid_method

pub record ExchangeStatusResponse : Type 0 where
  pub error : Option Error
  pub kitties : ℕ  -- int

-- The switch on the type: only an RPCError is reported.
abbrev pub reported : Option Error → Option Error
reported (some rpc_error) = some rpc_error
reported e = none

abbrev pub kitties_or_none : Result ℕ → ℕ
kitties_or_none (err e) = 0
kitties_or_none (ok n) = n

-- ExchangeStatusHandler, of the exchange's Status and Balance
unfoldable pub exchange_status_handler :
    Text → Option Error → Result ℕ → Response ExchangeStatusResponse
unfolding valid_method
exchange_status_handler method status balance =
    if valid_method method (method_get ∷ [])
    then answered (record { error = reported status; kitties = kitties_or_none balance })
    else failed 405 invalid_method

-- GetReservationsHandler
unfoldable pub get_reservations_handler : Text → Text → Agent → Response (List Reservation)
get_reservations_handler method status a =
    if text_eq method method_get
    then (if is_empty status then failed 400 status_text else elim (get_reservations status a) [
      | err e ↦ failed 500 (of_error e)
      | ok rs ↦ answered rs
    ])
    else failed 405 status_text

module _ ⦃b : Bolt⦄ where
  -- GetDepositAddressHandler, without the number of the kitty that it writes beside the address
  unfoldable pub get_deposit_address_handler : Text → Text → Db → Response Text
  get_deposit_address_handler method kitty_id db =
      if text_eq method method_get
      then (if is_empty kitty_id
          then failed 400 status_text
          else elim (get_kitty_deposit_address kitty_id db) [
            | err e ↦ failed 500 (of_error e)
            | ok addr ↦ answered addr
          ])
      else failed 405 status_text
