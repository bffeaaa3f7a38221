-- ===== src/Lib.antt =====
-- Verification of teller, the service that sells kitty boxes for bitcoin and skycoin. A scanner of
-- each coin watches deposit addresses and stores what was paid to them; the exchange records each
-- deposit for the kitty that the address is bound to, adds up the payments, and follows the sending
-- of the box; the pools hand out deposit addresses; the agent keeps the reservations. All of them
-- keep their state in one bolt database and change it inside its transactions.
--
-- The parts, and where they come from:
--   Common     helpers: Go strings as lists of bytes (Text), error values and results, int64 as bit
--              patterns below 2^64, decimal text, lists, and transactions (Txs): functions from the
--              state to an error or a value with a new state
--   Bolt       github.com/boltdb/bolt, a package of another project: an interface with the laws that
--              its documentation states, an instance argument of everything that uses it
--   Dbutil     src/util/dbutil/dbutil.go: typed reads and writes of one bucket
--   Db         the buckets of the database file; Access has the same calls inside a transaction, and
--              `update` and `read_only` for DB.Update and DB.View
--   Scanner    src/scanner: Types (the data of scanner.go and base_scanner.go), Store (store.go),
--              Blocks (the conversions of blocks and waitForNextBlock of btc.go and sky.go), Base (the
--              scan loop, processDeposit and loadUnprocessedDeposits of base_scanner.go), Multiplexer
--              (the registry of multiplexer.go, and Multiplex as a step relation), Dummy (dummy.go)
--   Exchange   src/exchange: Deposit (deposit.go), Store (store.go), Receive (receiver.go, with two
--              calls of src/scanner/multiplexer.go; Inside is BindAddressWithTx), Buy (buy.go), Send
--              (send.go), Facade (exchange.go)
--   Config     src/config/config.go: the validation of the configuration
--   Sender     src/sender/kitty.go and sender.go: the requests that are tried again; Dummy, the
--              stand-in of dummy.go for the wallet's node
--   Addrs      src/addrs: the bucket of used addresses, the pools and their manager, and Files, the
--              lists that they are loaded from
--   Agent      src/agent: the reservations and the users in memory (Managers), their store (Store),
--              MakeReservation (Booking), New (Starting), the reads (Queries), and the answers of the
--              verification service (Verifying, of verification.go)
--   Teller     src/teller/handlers.go: the handlers of the HTTP service (Http, with the helpers of
--              http.go), of which Reserve is MakeReservationHandler, and Reserving its part from the
--              call of MakeReservation to the commit; src/teller/teller.go: the service's binding of an
--              address (Service)
--   Monitor    src/monitor/monitor.go: the handlers of the monitor
--   System     the way of a deposit through all of them: a step relation on the database and the
--              channels, in which the scanners, the receiver, the processor, the sender, the binding,
--              the writes of the agent and of the pools, and a restart of the process with what is
--              loaded again after it come in any order. The scanners are those of the coins' nodes,
--              not the stand-in of dummy.go, which adds the deposits it is told to; the reachable
--              states start from a database with no deposits, no DepositInfos and nothing in
--              kitty_deposit_seqs. Stages is the specification that its steps refine
--   WalletScan cmd/scan/scan.go: the addresses of an operator's wallet, scanned block by block
--   Tools      cmd/dbfix/dbfix.go (Fixing) and cmd/dbmigrate/dbmigrate.go (Renaming): the repair of
--              addresses in the database, and a bucket under another name
--   Tests      an instance of Bolt in memory, and the theorems at concrete inputs
--
-- Conventions. A Go function with a `Tx` in its name runs inside a transaction of its caller and is
-- a definition of type `Tx Db A`. One that opens its own takes a database and returns a result and
-- the database after it, which is the old one on an error. Where such a call is made inside an open
-- writable transaction, it waits (Call of Exchange.Receive.Inside); a stand-in scanner (StandIns there)
-- opens none. The time is an argument. A field that is
-- an int64, uint32 or uint64 is a number, and sums wrap around. JSON is taken to read back what it
-- wrote, so a bucket holds the values themselves. The users that New loads are one variable behind many
-- pointers: the agent has the list of the addresses that lead to it (`shared`), and a change of one of
-- them is a change of all. The order in which Go comes to the entries of a map is left open where the
-- result could show it (getBroadcastedTransactions). A loop over a channel is a function of the list of
-- what arrives; the rounds of a loop that waits are a list of what each round meets.
--
-- Fuel: `skip_lines` of Addrs.Files gets the number of lines, each turn removes a line or moves past
-- one; `digits` of Common.Decimal gets one more than the number it prints.
--
-- Not modelled: logging, the shutdown of goroutines but for the multiplexer's, the wallet, the clients of
-- the coins' nodes and of the kitty API (their answers are arguments), the servers of the HTTP service and
-- of the monitor (listeners, TLS, routes, the throttling of requests) and the writing of responses, the
-- defaults and the reading of the configuration, files and flags, cmd/teller, which sets up the process,
-- cmd/tool, which prints what other packages answer, and cmd/btcd, a stand-in made from the server of btcd.
pub mod Common
pub mod Bolt
pub mod Scanner
pub mod Exchange
pub mod Agent
pub mod Teller
pub mod Db
pub mod Dbutil
pub mod Addrs
pub mod Config
pub mod Monitor
pub mod Sender
pub mod System
pub mod WalletScan
pub mod Tools
pub mod Tests
