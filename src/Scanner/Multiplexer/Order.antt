-- ===== src/Scanner/Multiplexer/Order.antt =====
-- What Multiplex (src/scanner/multiplexer.go) keeps of the notes of each scanner.
use teller.Common.{
  ◌≡◌, ◌≤◌, refl, sym, ap, ◌∙◌, subst, arith, Bool, Bool-cases, true, false, text_eq_refl, inl, inr,
  List, [], ◌∷◌, ◌++◌, length, length-append_one, Text, text_eq, text_eq_iff, if◌then◌else◌,
}
use mathlib.Core.List.{append_assoc, append-nil}
use teller.Scanner.Types.{Deposit}
use teller.Scanner.Store.{listed}
use teller.Scanner.Multiplexer.{Multiplexer}
use teller.Scanner.Multiplexer.Merging.{
  new_worker, Worker, selecting, holding, exited, Lane, Merging, out_capacity, multiplex, set_lane,
  Move, put, close, receive, end_of_channel, quit, forward, forward_closed, take, shutdown, Runs,
  here, next,
}

unfoldable pub notes_of : Text → List (Text × Deposit) → List Deposit
notes_of c [] = []
notes_of c ((d, dv) ∷ l) = let rest = notes_of c l in if text_eq d c then dv ∷ rest else rest

abbrev pub held : Worker → List Deposit
held selecting = []
held (holding dv) = dv ∷ []
held exited = []

-- All that is on its way from a scanner to the reader, or is there.
abbrev pub on_the_way : Lane → List Deposit
on_the_way l = held l.worker ++ l.channel

pub record InOrder (s : Merging) : Type 0 where
  pub ordered :
      (c : Text) → notes_of c (s.taken ++ s.out) ++ on_the_way (s.lanes c) ≡ (s.lanes c).sent
  pub bounded : length s.out ≤ out_capacity

notes_of-append :
    (c : Text) (xs ys : List (Text × Deposit))
    → notes_of c (xs ++ ys) ≡ notes_of c xs ++ notes_of c ys
unfolding notes_of
notes_of-append c [] ys = refl
notes_of-append c ((d, dv) ∷ xs) ys = ground (arith, notes_of-append c xs ys)

-- A lane that changes, with what the goroutine puts in the channel of the multiplexer.
lane_moved :
    (c : Text) (l : Lane) (out : List (Text × Deposit)) (s : Merging)
    → ((d : Text)
        → text_eq c d ≡ false
        → notes_of d (s.taken ++ out) ≡ notes_of d (s.taken ++ s.out))
    → notes_of c (s.taken ++ out) ++ on_the_way l ≡ l.sent
    → length out ≤ out_capacity
    → InOrder s
    → InOrder (record (set_lane c l s) { out = out })
unfolding set_lane
lane_moved c l out s others own small h = record {
  ordered = λ d. elim (Bool-cases (text_eq c d)) [
    | inl same ↦ rw (same) (
        subst (λ x. notes_of x (s.taken ++ out) ++ on_the_way l ≡ l.sent) ((text_eq_iff c d).0 same)
          own)
    | inr other ↦ rw (other) (ap (λ x. x ++ on_the_way (s.lanes d)) (others d other) ∙ h.ordered d)
  ];
  bounded = small;
}

-- ... and one that only moves its own notes.
lane_kept :
    (c : Text) (l : Lane) (s : Merging)
    → notes_of c (s.taken ++ s.out) ++ on_the_way l ≡ l.sent
    → InOrder s
    → InOrder (set_lane c l s)
unfolding set_lane
lane_kept c l s own h = lane_moved c l s.out s (λ d other. refl) own h.bounded h

notes_of-append_one :
    (c : Text) (dv : Deposit) (xs ys : List (Text × Deposit))
    → notes_of c (xs ++ (ys ++ ((c, dv) ∷ []))) ≡ notes_of c (xs ++ ys) ++ (dv ∷ [])
unfolding notes_of
notes_of-append_one c dv xs ys =
    ap (notes_of c) (sym (append_assoc xs ys ((c, dv) ∷ [])))
    ∙ notes_of-append c (xs ++ ys) ((c, dv) ∷ [])
    ∙ rw (text_eq_refl c) refl

notes_of_others :
    (c d : Text) (dv : Deposit) (xs ys : List (Text × Deposit))
    → text_eq c d ≡ false
    → notes_of d (xs ++ (ys ++ ((c, dv) ∷ []))) ≡ notes_of d (xs ++ ys)
unfolding notes_of
notes_of_others c d dv xs ys other =
    ap (notes_of d) (sym (append_assoc xs ys ((c, dv) ∷ [])))
    ∙ notes_of-append d (xs ++ ys) ((c, dv) ∷ [])
    ∙ rw (other) (append-nil (notes_of d (xs ++ ys)))

-- What has left the goroutine's hands in favour of something equal.
same_way :
    (c : Text) (s : Merging) (way : List Deposit)
    → way ≡ on_the_way (s.lanes c)
    → InOrder s
    → notes_of c (s.taken ++ s.out) ++ way ≡ (s.lanes c).sent
same_way c s way e h = ap (◌++◌ (notes_of c (s.taken ++ s.out))) e ∙ h.ordered c

put_last :
    (c : Text) (dv : Deposit) (s : Merging)
    → InOrder s
    → notes_of c (s.taken ++ s.out)
        ++ (held (s.lanes c).worker ++ ((s.lanes c).channel ++ (dv ∷ [])))
      ≡ (s.lanes c).sent ++ (dv ∷ [])
put_last c dv s h =
    let notes = notes_of c (s.taken ++ s.out) in
    ap (◌++◌ notes) (sym (append_assoc (held (s.lanes c).worker) (s.lanes c).channel (dv ∷ [])))
    ∙ sym (append_assoc notes (on_the_way (s.lanes c)) (dv ∷ []))
    ∙ ap (λ x. x ++ (dv ∷ [])) (h.ordered c)

put_out :
    (c : Text) (dv : Deposit) (s : Merging)
    → (s.lanes c).worker ≡ holding dv
    → InOrder s
    → notes_of c (s.taken ++ (s.out ++ ((c, dv) ∷ []))) ++ (s.lanes c).channel ≡ (s.lanes c).sent
put_out c dv s w h =
    ap (λ x. x ++ (s.lanes c).channel) (notes_of-append_one c dv s.taken s.out)
    ∙ append_assoc (notes_of c (s.taken ++ s.out)) (dv ∷ []) (s.lanes c).channel
    ∙ same_way c s (dv ∷ (s.lanes c).channel) (rw (w) refl) h

taken_over :
    (c : Text) (x : Text × Deposit) (rest : List (Text × Deposit)) (s : Merging)
    → s.out ≡ x ∷ rest
    → InOrder s
    → notes_of c ((s.taken ++ (x ∷ [])) ++ rest) ++ on_the_way (s.lanes c) ≡ (s.lanes c).sent
taken_over c x rest s e h =
    ap (λ l. notes_of c l ++ on_the_way (s.lanes c))
      (append_assoc s.taken (x ∷ []) rest ∙ ap (◌++◌ s.taken) (sym e))
    ∙ h.ordered c

Move-InOrder : (s t : Merging) → Move s t → InOrder s → InOrder t
Move-InOrder s t (put c dv ready) h = lane_kept c _ s (put_last c dv s h) h
Move-InOrder s t (close c) h = lane_kept c _ s (h.ordered c) h
Move-InOrder s t (receive c dv rest w ch) h =
    lane_kept c _ s (same_way c s (dv ∷ rest) (rw (w, ch) refl) h) h
Move-InOrder s t (end_of_channel c w ch cl) h =
    lane_kept c _ s (same_way c s (s.lanes c).channel (rw (w) refl) h) h
Move-InOrder s t (quit c w q) h =
    lane_kept c _ s (same_way c s (s.lanes c).channel (rw (w) refl) h) h
Move-InOrder s t (forward c dv w q small) h =
    lane_moved c _ (s.out ++ ((c, dv) ∷ [])) s
      (λ d other. notes_of_others c d dv s.taken s.out other) (put_out c dv s w h)
      (ground (arith, length-append_one s.out (c, dv))) h
Move-InOrder s t (forward_closed c dv w q) h = record { ordered = h.ordered; bounded = h.bounded }
Move-InOrder s t (take x rest e) h = record {
  ordered = λ c. taken_over c x rest s e h;
  bounded = ground (arith, h.bounded, ap length e);
}
Move-InOrder s t (shutdown q) h = record { ordered = h.ordered; bounded = h.bounded }

nothing_held : (b : Bool) → held (new_worker b) ++ [] ≡ []
nothing_held true = refl
nothing_held false = refl

multiplex-InOrder : (m : Multiplexer) → InOrder (multiplex m)
unfolding multiplex notes_of
multiplex-InOrder m = record {
  ordered = λ c. nothing_held (listed c m.coins);
  bounded = ground arith;
}

-- In whatever order the scanners, the goroutines of Multiplex, the reader of GetDeposit and
-- Shutdown move: what the reader has taken of a scanner's notes, then those of them in the
-- channel of the multiplexer, the one that the goroutine holds and those in the scanner's
-- channel are all that the scanner has sent, in the order in which it sent them; and the channel
-- of the multiplexer holds 1000 notes at most.
pub Runs-InOrder : (m : Multiplexer) (s : Merging) → Runs (multiplex m) s → InOrder s
Runs-InOrder m s here = multiplex-InOrder m
Runs-InOrder m s (next r alive move) = Move-InOrder _ s move (Runs-InOrder m _ r)
