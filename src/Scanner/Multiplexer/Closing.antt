-- ===== src/Scanner/Multiplexer/Closing.antt =====
-- Shutdown of src/scanner/multiplexer.go, which closes outChan with quit.
use teller.Common.{
  ◌≡◌, ◌⊎◌, inl, inr, refl, ap, arith, Bool-cases, true, Text, text_eq, text_eq_iff,
}
use teller.Scanner.Types.{Deposit}
use teller.Scanner.Store.{listed}
use teller.Scanner.Multiplexer.{Multiplexer}
use teller.Scanner.Multiplexer.Merging.{
  selecting, holding, Lane, Merging, set_lane, Move, put, close, receive, end_of_channel, quit,
  forward, forward_closed, take, shutdown, Runs, here, next, HasReturned,
}

IsStuck : Text → Deposit → Merging → Type 0
IsStuck c dv s = (s.quitting ≡ true) × ((s.lanes c).worker ≡ holding dv)

-- A lane of another scanner, or one whose goroutine does what it did.
same_worker :
    (c d : Text) (dv : Deposit) (l : Lane) (s : Merging)
    → l.worker ≡ (s.lanes d).worker
    → IsStuck c dv s
    → IsStuck c dv (set_lane d l s)
unfolding set_lane IsStuck
same_worker c d dv l s e h = elim (Bool-cases (text_eq d c)) [
  | inl same ↦ (h.0, ground (arith, text_eq_iff d c, e, h.1))
  | inr other ↦ (h.0, rw (other) h.1)
]

other_worker :
    (c d : Text) (dv : Deposit) (l : Lane) (s : Merging)
    → (s.lanes d).worker ≡ selecting
    → IsStuck c dv s
    → IsStuck c dv (set_lane d l s)
unfolding set_lane IsStuck
other_worker c d dv l s e h = elim (Bool-cases (text_eq d c)) [
  | inl same ↦
      absurd (ground (arith, ap (λ x. (s.lanes x).worker) ((text_eq_iff d c).0 same), e, h.1))
  | inr other ↦ (h.0, rw (other) h.1)
]

Move-IsStuck :
    (c : Text) (dv : Deposit) (s t : Merging)
    → Move s t
    → IsStuck c dv s
    → (t.panicked ≡ true) ⊎ IsStuck c dv t
unfolding IsStuck
Move-IsStuck c dv s t (put d dv' ready) h = inr (same_worker c d dv _ s refl h)
Move-IsStuck c dv s t (close d) h = inr (same_worker c d dv _ s refl h)
Move-IsStuck c dv s t (receive d dv' rest w ch) h = inr (other_worker c d dv _ s w h)
Move-IsStuck c dv s t (end_of_channel d w ch cl) h = inr (other_worker c d dv _ s w h)
Move-IsStuck c dv s t (quit d w q) h = inr (other_worker c d dv _ s w h)
Move-IsStuck c dv s t (forward d dv' w q small) h = absurd (ground (arith, q, h.0))
Move-IsStuck c dv s t (forward_closed d dv' w q) h = inl refl
Move-IsStuck c dv s t (take x rest e) h = inr h
Move-IsStuck c dv s t (shutdown q) h = absurd (ground (arith, q, h.0))

Runs-IsStuck :
    (c : Text) (dv : Deposit) (s t : Merging)
    → Runs s t
    → IsStuck c dv s
    → (t.panicked ≡ true) ⊎ IsStuck c dv t
Runs-IsStuck c dv s t here h = inr h
Runs-IsStuck c dv s t (next r alive move) h = elim (Runs-IsStuck c dv s _ r h) [
  | inl p ↦ absurd (ground (arith, p, alive))
  | inr k ↦ Move-IsStuck c dv _ t move k
]

-- When Shutdown has closed the channels of the multiplexer while the goroutine of one of its
-- scanners holds a note, Multiplex never returns, whatever happens after it: the goroutine does
-- not end before its send on the closed channel panics.
pub Runs-HasReturned :
    (m : Multiplexer) (c : Text) (dv : Deposit) (s t : Merging)
    → listed c m.coins ≡ true
    → s.quitting ≡ true
    → (s.lanes c).worker ≡ holding dv
    → Runs s t
    → ¬ HasReturned m t
unfolding IsStuck
Runs-HasReturned m c dv s t there q w r h = elim (Runs-IsStuck c dv s t r (q, w)) [
  | inl p ↦ ground (arith, p, h.1)
  | inr k ↦ ground (arith, h.0 c there, k.1)
]
