-- ===== src/Monitor.antt =====
-- src/monitor/monitor.go: the handlers of the monitor. A handler gets the method, its argument and
-- what it reads; the writing of the answer to the connection is left out.
pub mod Shown
use teller.Common.{ℕ, Bool, true, List, Text, text_eq, is_empty, Result, ok, err, if◌then◌else◌}
use teller.Bolt.{Bolt}
use teller.Db.{Db}
use teller.Exchange.Types.{Status, unknown, DepositInfo, DepositStats, is_status}
use teller.Exchange.Deposit.{new_status_from_str}
use teller.Exchange.Store.Queries.{get_deposit_stats}
use teller.Exchange.Facade.{DepositStatusDetail, get_deposit_status_detail}
use teller.Teller.Http.{Response, failed, answered, status_text, method_get}

pub record AddressUsage : Type 0 where
  pub rest_addr_num : ℕ  -- uint64
  pub scanning_addrs : List Text

-- addressHandler, of the scanner's GetScanAddresses and the pool's Remaining
unfoldable pub address_handler : Text → Result (List Text) → ℕ → Response AddressUsage
address_handler method addrs remaining =
    if text_eq method method_get
    then elim addrs [
      | err e ↦ failed 500 status_text
      | ok l ↦ answered (record { rest_addr_num = remaining; scanning_addrs = l })
    ]
    else failed 405 status_text

abbrev all_statuses : DepositInfo → Bool
all_statuses dpi = true

abbrev pub has_status : Status → DepositInfo → Bool
has_status st dpi = is_status dpi.status st

abbrev pub shown : {A : Type 0} → Result A → Response A
shown (err e) = failed 500 status_text
shown (ok v) = answered v

module _ ⦃b : Bolt⦄ where
  unfoldable pub by_status : Status → Db → Response (List DepositStatusDetail)
  by_status st db =
      if is_status st unknown
      then failed 400 status_text
      else shown (get_deposit_status_detail (has_status st) db)

  -- depositStatus; the argument is status. The text of the error for an unknown one is left out.
  unfoldable pub deposit_status : Text → Text → Db → Response (List DepositStatusDetail)
  unfolding by_status
  deposit_status method status db =
      if text_eq method method_get
      then (if is_empty status
          then shown (get_deposit_status_detail all_statuses db)
          else by_status (new_status_from_str status) db)
      else failed 405 status_text

  -- statsHandler
  unfoldable pub stats_handler : Text → Db → Response DepositStats
  stats_handler method db =
      if text_eq method method_get then shown (get_deposit_stats db) else failed 405 status_text
