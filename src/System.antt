-- ===== src/System.antt =====
-- The way of a deposit through the running service: the scan goroutine and the deposit pipe of each
-- scanner of a node (src/scanner/base_scanner.go; the stand-in of dummy.go is left out), the receiver, the processor and the sender of the exchange
-- (src/exchange), on one database. A step is one transaction or one move on a channel; the steps
-- come in any order. What the multiplexer adds is a queue of notes, one for each scanner at most.
pub mod Database
pub mod Growth
pub mod Kept
pub mod Invariant
pub mod Stages
pub mod Safety
use teller.Common.{
  ℕ, ◌≡◌, Bool, ◌||◌, Option, none, some, List, [], ◌∷◌, ◌++◌, Text, text_eq, Result, ok, err,
  Error, take, if◌then◌else◌,
}
use teller.Bolt.{Bolt}
use teller.Dbutil.{view}
use teller.Db.{Db}
use teller.Agent.Types.{Reservation, User}
use teller.Scanner.Types.{Deposit, CommonBlock}
use teller.Scanner.Store.{scan_block, get_unprocessed_deposits}
use teller.Scanner.Base.{Reply, replied, process_deposit}
use teller.Exchange.Types.{
  BoundAddress, DepositInfo, is_status, wait_send, wait_confirm, wait_decide,
}
use teller.Exchange.Store.Queries.{get_deposit_info_array}
use teller.Exchange.Receive.{receive_round, receive_bind_address}
use teller.Exchange.Buy.{buy_round}
use teller.Exchange.Send.{Round, process_wait_send_deposit}

-- Where processDeposit of a scanner stands: between two deposits, waiting for the exchange's answer
-- on this one, or with the answer nil.
pub data Hand : Type 0 where
  idle : Hand
  asking answered : Deposit → Hand

-- A scanner: its channel scannedDeposits, and its pipe.
pub record Pipe : Type 0 where
  pub queue : List Deposit
  pub hand : Hand

abbrev pub new_pipe : Pipe
new_pipe = record { queue = []; hand = idle }

-- What an answer of the exchange does to the pipe.
abbrev pub on_answer : Option Error → Deposit → Hand
on_answer none dv = answered dv
on_answer (some e) dv = idle

abbrev pub out_list : Option DepositInfo → List DepositInfo
out_list none = []
out_list (some di) = di ∷ []

abbrev pub cut : {A : Type 0} → Option ℕ → List A → List A
cut none l = l
cut (some n) l = take n l

-- The filter of Receive.Run, and the two of Send.Run.
abbrev pub has_wait_decide : DepositInfo → Bool
has_wait_decide di = is_status di.status wait_decide

abbrev pub has_wait_send : DepositInfo → Bool
has_wait_send di = is_status di.status wait_send

abbrev pub has_wait_confirm : DepositInfo → Bool
has_wait_confirm di = is_status di.status wait_confirm

module _ ⦃b : Bolt⦄ where
  -- The pipes are found by the scanner's coin type; `received` and `paid` are the channels of the
  -- receiver and of the processor.
  pub record System : Type 0 where
    pub db : Db
    pub pipes : Text → Pipe
    pub received : List DepositInfo
    pub paid : List DepositInfo

  abbrev pub set_pipe : Text → Pipe → (Text → Pipe) → Text → Pipe
  set_pipe c p pipes d = if text_eq c d then p else pipes d

  pub data Step (s : System) : System → Type 0 where
    -- scanBlock, and what it sends before the scanner quits
    scan :
        (c : Text) (block : CommonBlock) (sent : Option ℕ) {dvs : List Deposit} {db' : Db}
        → scan_block block c s.db ≡ (ok dvs, db')
        → Step s (record s {
          db = db';
          pipes =
              set_pipe c (record (s.pipes c) { queue = (s.pipes c).queue ++ cut sent dvs }) s.pipes;
        })
    -- the pipe takes a deposit and sends it to the exchange
    take_next :
        (c : Text) (dv : Deposit) (rest : List Deposit)
        → s.pipes c ≡ record { queue = dv ∷ rest; hand = idle }
        → Step s
            (record s { pipes = set_pipe c (record { queue = rest; hand = asking dv }) s.pipes })
    -- the receiver
    receive :
        (c : Text) (now : ℕ) (dv : Deposit) {answer : Option Error} {out : Option DepositInfo}
        {db' : Db}
        → (s.pipes c).hand ≡ asking dv
        → receive_round now dv s.db ≡ (answer, out, db')
        → Step s (record s {
          db = db';
          pipes = set_pipe c (record (s.pipes c) { hand = on_answer answer dv }) s.pipes;
          received = s.received ++ out_list out;
        })
    -- the rest of processDeposit after the answer nil
    mark :
        (c : Text) (dv : Deposit) {e : Option Error} {db' : Db}
        → (s.pipes c).hand ≡ answered dv
        → process_deposit dv (replied none) s.db ≡ (e, db')
        → Step s
            (record s { db = db'; pipes = set_pipe c (record (s.pipes c) { hand = idle }) s.pipes })
    -- a round of runUpdateStatus
    buy :
        (now : ℕ) (di : DepositInfo) (rest : List DepositInfo) {out : Option DepositInfo} {db' : Db}
        → s.received ≡ di ∷ rest
        → buy_round now di s.db ≡ (out, db')
        → Step s (record s { db = db'; received = rest; paid = s.paid ++ out_list out })
    -- Receive.Run loads what is not decided, and queues it, or so many of it before the process ends
    reload :
        (queued : Option ℕ) {waiting : List DepositInfo}
        → get_deposit_info_array has_wait_decide s.db ≡ ok waiting
        → Step s (record s { received = s.received ++ cut queued waiting })
    -- Send.Run loads what is not finished
    load :
        (queued : Option ℕ) {sends confirms : List DepositInfo}
        → get_deposit_info_array has_wait_send s.db ≡ ok sends
        → get_deposit_info_array has_wait_confirm s.db ≡ ok confirms
        → Step s (record s { paid = s.paid ++ cut queued (confirms ++ sends) })
    -- the sender works on a deposit for some rounds
    send :
        (di : DepositInfo) (rest : List DepositInfo) (rounds : List Round)
        → s.paid ≡ di ∷ rest
        → Step s (record s { db = (process_wait_send_deposit rounds di s.db).1; paid = rest })
    -- runNoSend, where sending is disabled
    flush :
        (di : DepositInfo) (rest : List DepositInfo)
        → s.paid ≡ di ∷ rest
        → Step s (record s { paid = rest })
    -- an address is bound
    bind :
        (coins : List Text) (kitty_id deposit_addr coin_type : Text) {r : Result BoundAddress}
        {db' : Db}
        → receive_bind_address coins kitty_id deposit_addr coin_type s.db ≡ (r, db')
        → Step s (record s { db = db' })
    -- the agent and the pools write what they like to their own buckets
    elsewhere :
        (reservations : Option (b.Bucket Reservation)) (users : Option (b.Bucket User))
        (owners btc sky : Option (b.Bucket Text))
        → Step s (record s {
          db = record s.db {
            reservations_kitty = reservations;
            users = users;
            kitty_owner = owners;
            used_btc_address = btc;
            used_sky_address = sky;
          };
        })
    -- the process ends and starts again
    restart : Step s (record { db = s.db; pipes = λ c. new_pipe; received = []; paid = [] })
    -- a scanner that starts loads the deposits that are not processed
    resume :
        (c : Text) (sent : Option ℕ) {dvs : List Deposit}
        → get_unprocessed_deposits s.db ≡ ok dvs
        → Step s (record s {
          pipes =
              set_pipe c (record (s.pipes c) { queue = (s.pipes c).queue ++ cut sent dvs }) s.pipes;
        })

  -- A database in which nothing was deposited yet, and the index of the kitties is empty.
  pub record IsUnused (db : Db) : Type 0 where
    pub no_deposit : (k : Text) → view db.deposit_value k ≡ none
    pub no_info : (k : Text) → view db.deposit_info k ≡ none
    pub no_seqs : (k : Text) → view db.kitty_deposit_seqs k ≡ none

  pub data Reach : System → Type 0 where
    start :
        (db : Db)
        → IsUnused db
        → Reach (record { db = db; pipes = λ c. new_pipe; received = []; paid = [] })
    later : {s t : System} → Reach s → Step s t → Reach t
