-- ===== src/Teller/Http/Reserve.antt =====
-- The whole of MakeReservationHandler (src/teller/handlers.go).
pub mod Unanswered
use teller.Common.{
  ℕ, ◌+◌, ◌*◌, ◌%◌, Bool, true, false, Option, none, some, List, [], ◌∷◌, Text, text_eq, codes,
  is_empty, decimal, Result, ok, err, Error, u64_mod, bind_disabled, deposit_address_empty,
  box_already_bound, max_reservations_exceeded, box_already_reserved, invalid_coin_type,
  if◌then◌else◌,
}
use teller.Bolt.{Bolt}
use teller.Db.{Db}
use teller.Addrs.{AddrManager}
use teller.Agent.Managers.{Agent}
use teller.Agent.Booking.{Outcome, make_reservation}
use teller.Exchange.Types.{BoundAddress}
use teller.Exchange.Receive.Inside.{StandIns, Call, answered, blocked}
use teller.Teller.Service.{service_bind_address_tx}
use teller.Teller.Reserving.{Answers, reserve_box}
use teller.Teller.Http.{
  Message, status_text, of_error, invalid_content_type, invalid_json, missing_user_address,
  missing_coin_type, missing_code, invalid_user_address, Response, failed, hanging, panicked,
  method_post,
}

pub record ReservationRequest : Type 0 where
  pub user_address : Text
  pub kitty_id : ℕ  -- uint64
  pub coin_type : Text
  pub verification_code : Text

pub record ReserveResponse : Type 0 where
  pub deposit_address : Text
  pub coin_type : Text
  pub deadline : ℕ  -- int64
  pub kitty_id : ℕ  -- uint64

-- What the handler has at hand: the decoder of addresses, the configuration, the coin types of the
-- scanners and which of these are stand-ins, whether Begin succeeds, the time in nanoseconds, and the answers of the other services.
pub record Setting : Type 0 where
  pub decodes : Text → Bool
  pub bind_enabled : Bool
  pub coins : List Text
  pub stand_ins : StandIns
  pub begins : Bool
  pub now : ℕ
  pub answers : Answers

-- What the JSON decoder makes of the body. After null the pointer reserveReq is nil.
pub data Body : Type 0 where
  no_json null : Body
  request : ReservationRequest → Body

-- The tests on the request; the first of them reads from the pointer.
unfoldable pub check_request : Setting → Text → Text → Body → Response ReservationRequest
check_request s method content_type no_json =
    if text_eq method method_post
    then (if text_eq content_type (codes "application/json")
        then failed 400 invalid_json
        else failed 415 invalid_content_type)
    else failed 405 status_text
check_request s method content_type null =
    if text_eq method method_post
    then (if text_eq content_type (codes "application/json")
        then panicked
        else failed 415 invalid_content_type)
    else failed 405 status_text
check_request s method content_type (request r) =
    if text_eq method method_post
    then (if text_eq content_type (codes "application/json")
        then (if is_empty r.user_address
            then failed 400 missing_user_address
            else if is_empty r.coin_type
            then failed 400 missing_coin_type
            else if is_empty r.verification_code
            then failed 400 missing_code
            else if s.decodes r.user_address
            then Response.answered r
            else failed 400 invalid_user_address)
        else failed 415 invalid_content_type)
    else failed 405 status_text

-- The two switches on the error of BindAddressTx.
abbrev pub bind_code : Error → ℕ
bind_code bind_disabled = 403
bind_code e = 500

abbrev pub bind_message : Error → Message
bind_message bind_disabled = of_error bind_disabled
bind_message deposit_address_empty = of_error deposit_address_empty
bind_message box_already_bound = of_error box_already_bound
bind_message e = status_text

-- The code for an error of MakeReservation; the later calls have 400.
unfoldable pub reservation_code : Result (Unit {0}) → ℕ
reservation_code (ok u) = 400
reservation_code (err max_reservations_exceeded) = 400
reservation_code (err box_already_reserved) = 400
reservation_code (err invalid_coin_type) = 400
reservation_code (err e) = 500

module _ ⦃b : Bolt⦄ where
  -- The response, the pools, the agent and the database that others see.
  abbrev pub Handled : Type 0
  Handled = Response ReserveResponse × AddrManager × Agent × Db

  reserved :
      Setting
      → ReservationRequest
      → BoundAddress
      → AddrManager
      → Result (Unit {0})
      → Outcome
      → Handled
  unfolding reservation_code
  reserved s r bound am made (err e, a, db) =
      (failed (reservation_code made) (of_error e), am, a, db)
  reserved s r bound am made (ok u, a, db) = (
    Response.answered (record {
      deposit_address = bound.address;
      coin_type = bound.coin_type;
      deadline = (s.now + 86400000000000) % u64_mod;
      kitty_id = r.kitty_id;
    }),
    am,
    a,
    db,
  )

  after_bind :
      Setting
      → ReservationRequest
      → Agent
      → Db
      → Call (Result (BoundAddress × Db)) × AddrManager
      → Handled
  unfolding reserved
  after_bind s r a db (blocked, am) = (hanging, am, a, db)
  after_bind s r a db (answered (err e), am) = (failed (bind_code e) (bind_message e), am, a, db)
  after_bind s r a db (answered (ok (bound, tx)), am) =
      reserved s r bound am
        (make_reservation s.answers.verified bound.address r.user_address (decimal r.kitty_id)
          r.coin_type a tx).0
        (reserve_box s.answers bound.address r.user_address (decimal r.kitty_id) r.coin_type a tx
          db)

  checked : Setting → AddrManager → Agent → Db → Response ReservationRequest → Handled
  unfolding after_bind
  checked s am a db (failed code m) = (failed code m, am, a, db)
  checked s am a db hanging = (hanging, am, a, db)
  checked s am a db panicked = (panicked, am, a, db)
  checked s am a db (Response.answered r) =
      if s.begins
      then after_bind s r a db (
          service_bind_address_tx s.bind_enabled s.coins s.stand_ins am (decimal r.kitty_id)
            r.coin_type db db)
      else (failed 500 status_text, am, a, db)

  unfoldable pub make_reservation_handler :
      Setting → Text → Text → Body → AddrManager → Agent → Db → Handled
  unfolding checked check_request
  make_reservation_handler s method content_type body am a db =
      checked s am a db (check_request s method content_type body)
