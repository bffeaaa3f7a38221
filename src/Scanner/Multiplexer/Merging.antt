-- ===== src/Scanner/Multiplexer/Merging.antt =====
-- Multiplex and Shutdown of src/scanner/multiplexer.go: a goroutine for each scanner that was added
-- moves the notes from the scanner's channel to the channel of the multiplexer. A step is one move
-- of a goroutine, of a scanner, or of the reader of GetDeposit, in any order.
use teller.Common.{
  ℕ, ◌≡◌, ◌<◌, Bool, true, false, List, [], ◌∷◌, ◌++◌, length, Text, text_eq, if◌then◌else◌,
}
use teller.Scanner.Types.{Deposit}
use teller.Scanner.Store.{listed}
use teller.Scanner.Multiplexer.{Multiplexer}

-- A goroutine: in its select, with a note that it is about to send, or gone.
pub data Worker : Type 0 where
  selecting : Worker
  holding : Deposit → Worker
  exited : Worker

-- A scanner as the goroutine sees it. `sent` is all that the scanner has put in its channel so far;
-- the program keeps no such list.
pub record Lane : Type 0 where
  pub sent : List Deposit
  pub channel : List Deposit
  pub closed : Bool
  pub worker : Worker

-- outChan, with the scanner each note came from, what its reader has taken, and whether Shutdown
-- has closed quit and outChan. `panicked` ends the process.
pub record Merging : Type 0 where
  pub lanes : Text → Lane
  pub out : List (Text × Deposit)
  pub taken : List (Text × Deposit)
  pub quitting : Bool
  pub panicked : Bool

abbrev pub out_capacity : ℕ
out_capacity = 1000

abbrev pub new_worker : Bool → Worker
new_worker true = selecting
new_worker false = exited

unfoldable pub multiplex : Multiplexer → Merging
multiplex m = record {
  lanes = λ c. record {
    sent = [];
    channel = [];
    closed = false;
    worker = new_worker (listed c m.coins);
  };
  out = [];
  taken = [];
  quitting = false;
  panicked = false;
}

unfoldable pub set_lane : Text → Lane → Merging → Merging
set_lane c l s = record s { lanes = λ d. if text_eq c d then l else s.lanes d }

pub data Move (s : Merging) : Merging → Type 0 where
  -- the scanner
  put :
      (c : Text) (dv : Deposit)
      → (s.lanes c).closed ≡ false
      → Move s (
          set_lane c
            (record (s.lanes c) {
              sent = (s.lanes c).sent ++ (dv ∷ []);
              channel = (s.lanes c).channel ++ (dv ∷ []);
            })
            s)
  close : (c : Text) → Move s (set_lane c (record (s.lanes c) { closed = true }) s)
  -- the first case of the select
  receive :
      (c : Text) (dv : Deposit) (rest : List Deposit)
      → (s.lanes c).worker ≡ selecting
      → (s.lanes c).channel ≡ dv ∷ rest
      → Move s (set_lane c (record (s.lanes c) { channel = rest; worker = holding dv }) s)
  -- ... on a channel that is closed and empty
  end_of_channel :
      (c : Text)
      → (s.lanes c).worker ≡ selecting
      → (s.lanes c).channel ≡ []
      → (s.lanes c).closed ≡ true
      → Move s (set_lane c (record (s.lanes c) { worker = exited }) s)
  -- the case of quit; with a note at hand as well, select takes either case
  quit :
      (c : Text)
      → (s.lanes c).worker ≡ selecting
      → s.quitting ≡ true
      → Move s (set_lane c (record (s.lanes c) { worker = exited }) s)
  -- m.outChan <- dv, which waits for room
  forward :
      (c : Text) (dv : Deposit)
      → (s.lanes c).worker ≡ holding dv
      → s.quitting ≡ false
      → length s.out < out_capacity
      → Move s (record (set_lane c (record (s.lanes c) { worker = selecting }) s) {
        out = s.out ++ ((c, dv) ∷ []);
      })
  -- ... and panics when outChan is closed
  forward_closed :
      (c : Text) (dv : Deposit)
      → (s.lanes c).worker ≡ holding dv
      → s.quitting ≡ true
      → Move s (record s { panicked = true })
  -- the reader of GetDeposit
  take :
      (x : Text × Deposit) (rest : List (Text × Deposit))
      → s.out ≡ x ∷ rest
      → Move s (record s { out = rest; taken = s.taken ++ (x ∷ []) })
  shutdown : s.quitting ≡ false → Move s (record s { quitting = true })

-- What the process can come to from `s`.
pub data Runs (s : Merging) : Merging → Type 0 where
  here : Runs s s
  next : {t u : Merging} → Runs s t → t.panicked ≡ false → Move t u → Runs s u

-- Multiplex returns, and closes done, when the goroutine of every scanner is gone.
abbrev pub HasReturned : Multiplexer → Merging → Type 0
HasReturned m s =
    ((c : Text) → listed c m.coins ≡ true → (s.lanes c).worker ≡ exited) × (s.panicked ≡ false)
