-- ===== src/Sender/Dummy/Sorted.antt =====
-- The list of the transactions, whatever the order of the loop over the map (src/sender/dummy.go).
use mathlib.Core.List.{Permᴰ}
use mathlib.Core.List.Permᴰ.{nil, cons, swap, trans}
use teller.Common.{
  ℕ, suc, ◌+◌, ◌<◌, ◌≡◌, ◌≢◌, inl, inr, refl, sym, ap, ◌∙◌, subst, arith, Bool-cases, List, [], ◌∷◌,
  length, StringMap, i64_half, ltb_i64, All,
}
use teller.Sender.Dummy.{
  insert_by_seq, sort_by_seq, txns_of, get_broadcasted_transactions, DummyTransaction,
  new_dummy_sender, DummyOp, dummy_run,
}
use teller.Sender.Dummy.Numbered.{FromOn, dummy_run-IsNumbered}

-- The numbers of a list go up by one from `n`.
abbrev pub CountsFrom : ℕ → List DummyTransaction → Type 0
CountsFrom n [] = Unit {0}
CountsFrom n (t ∷ l) = (t.seq ≡ n) × CountsFrom (suc n) l

-- The number is positive as an int64.
abbrev IsSmall : DummyTransaction → Type 0
IsSmall t = t.seq < i64_half

-- No two transactions of a list have one number.
abbrev SeqsDiffer : List DummyTransaction → Type 0
SeqsDiffer [] = Unit {0}
SeqsDiffer (t ∷ l) = All (λ (u : DummyTransaction). t.seq ≢ u.seq) l × SeqsDiffer l

All-perm :
    (P : DummyTransaction → Type 0) {l m : List DummyTransaction} → Permᴰ l m → All P l → All P m
All-perm P nil a = tt
All-perm P (cons e d) a = (subst P e a.0, All-perm P d a.1)
All-perm P (swap e f) a = (subst P f a.1.0, (subst P e a.0, a.1.1))
All-perm P (trans d e) a = All-perm P e (All-perm P d a)

SeqsDiffer-perm : {l m : List DummyTransaction} → Permᴰ l m → SeqsDiffer l → SeqsDiffer m
SeqsDiffer-perm nil h = tt
SeqsDiffer-perm (cons {a = t0} {l₂ = m} e d) h = (
  subst (λ (t : DummyTransaction). All (λ (u : DummyTransaction). t.seq ≢ u.seq) m) e
      (All-perm (λ (u : DummyTransaction). t0.seq ≢ u.seq) d h.0),
  SeqsDiffer-perm d h.1,
)
SeqsDiffer-perm (swap {l = l} e f) h = (
  (
    λ same. h.0.0 (
        ap (λ (t : DummyTransaction). t.seq) e
        ∙ sym same
        ∙ ap (λ (t : DummyTransaction). t.seq) (sym f)),
    subst (λ (t : DummyTransaction). All (λ (u : DummyTransaction). t.seq ≢ u.seq) l) f h.1.0,
  ),
  (
    subst (λ (t : DummyTransaction). All (λ (u : DummyTransaction). t.seq ≢ u.seq) l) e h.0.1,
    h.1.1,
  ),
)
SeqsDiffer-perm (trans d e) h = SeqsDiffer-perm e (SeqsDiffer-perm d h)

insert_by_seq-All :
    (P : DummyTransaction → Type 0) (t : DummyTransaction) (l : List DummyTransaction)
    → P t
    → All P l
    → All P (insert_by_seq t l)
unfolding insert_by_seq
insert_by_seq-All P t [] p a = (p, tt)
insert_by_seq-All P t (u ∷ l) p a = elim (Bool-cases (ltb_i64 u.seq t.seq)) [
  | inl before ↦ rw (insert_by_seq, before) ((a.0, insert_by_seq-All P t l p a.1))
  | inr after ↦ rw (insert_by_seq, after) ((p, a))
]

sort_by_seq-All :
    (P : DummyTransaction → Type 0) (l : List DummyTransaction) → All P l → All P (sort_by_seq l)
unfolding sort_by_seq
sort_by_seq-All P [] a = tt
sort_by_seq-All P (t ∷ l) a = insert_by_seq-All P t (sort_by_seq l) a.0 (sort_by_seq-All P l a.1)

insert_by_seq_comm :
    (t u : DummyTransaction) (l : List DummyTransaction)
    → IsSmall t
    → IsSmall u
    → t.seq ≢ u.seq
    → All IsSmall l
    → insert_by_seq t (insert_by_seq u l) ≡ insert_by_seq u (insert_by_seq t l)
unfolding insert_by_seq
insert_by_seq_comm t u [] st su other a = ground arith
insert_by_seq_comm t u (v ∷ l) st su other a =
    let ih = insert_by_seq_comm t u l st su other a.1 in let sv = a.0 in ground (arith, ih)

-- The order in which the transactions come makes no difference.
sort_by_seq-perm :
    {l m : List DummyTransaction}
    → Permᴰ l m
    → All IsSmall l
    → SeqsDiffer l
    → sort_by_seq l ≡ sort_by_seq m
unfolding sort_by_seq
sort_by_seq-perm nil a h = refl
sort_by_seq-perm (cons {a = t} {l₁ = l} {l₂ = m} e d) a h =
    ap (insert_by_seq t) (sort_by_seq-perm d a.1 h.1)
    ∙ ap (λ (u : DummyTransaction). insert_by_seq u (sort_by_seq m)) e
sort_by_seq-perm (swap {a = t} {b = u} {a' = u'} {b' = t'} {l = l} e f) a h =
    insert_by_seq_comm t u (sort_by_seq l) a.0 a.1.0 h.0.0 (sort_by_seq-All IsSmall l a.1.1)
    ∙ ap (λ (v : DummyTransaction). insert_by_seq v (insert_by_seq t (sort_by_seq l))) f
    ∙ ap (λ (v : DummyTransaction). insert_by_seq u' (insert_by_seq v (sort_by_seq l))) e
sort_by_seq-perm (trans d e) a h =
    sort_by_seq-perm d a h ∙ sort_by_seq-perm e (All-perm IsSmall d a) (SeqsDiffer-perm d h)

insert_first :
    (n : ℕ) (t : DummyTransaction) (l : List DummyTransaction)
    → suc n + length l < i64_half
    → t.seq ≡ n
    → CountsFrom (suc n) l
    → insert_by_seq t l ≡ t ∷ l
unfolding insert_by_seq
insert_first n t [] small e c = refl
insert_first n t (u ∷ l) small e c = ground (arith, e, c.0)

sort_by_seq-CountsFrom :
    (n : ℕ) (m : StringMap DummyTransaction)
    → n + length m < i64_half
    → FromOn n m
    → CountsFrom n (sort_by_seq (txns_of m)) × (length (sort_by_seq (txns_of m)) ≡ length m)
unfolding sort_by_seq txns_of
sort_by_seq-CountsFrom n [] small f = (tt, refl)
sort_by_seq-CountsFrom n ((k, t) ∷ m) small f =
    let (c, l) = sort_by_seq-CountsFrom (suc n) m (ground arith) f.1 in
    rw (insert_first n t (sort_by_seq (txns_of m)) (ground (arith, l)) f.0 c) ((f.0, c), ap suc l)

FromOn-IsSmall :
    (n : ℕ) (m : StringMap DummyTransaction)
    → n + length m < i64_half
    → FromOn n m
    → All IsSmall (txns_of m)
unfolding txns_of
FromOn-IsSmall n [] small f = tt
FromOn-IsSmall n ((k, t) ∷ m) small f =
    (ground (arith, f.0), FromOn-IsSmall (suc n) m (ground arith) f.1)

FromOn-later :
    (n i : ℕ) (m : StringMap DummyTransaction)
    → i < n
    → FromOn n m
    → All (λ (u : DummyTransaction). i ≢ u.seq) (txns_of m)
unfolding txns_of
FromOn-later n i [] less f = tt
FromOn-later n i ((k, t) ∷ m) less f =
    (λ same. ground (arith, f.0), FromOn-later (suc n) i m (ground arith) f.1)

FromOn-SeqsDiffer : (n : ℕ) (m : StringMap DummyTransaction) → FromOn n m → SeqsDiffer (txns_of m)
unfolding txns_of
FromOn-SeqsDiffer n [] f = tt
FromOn-SeqsDiffer n ((k, t) ∷ m) f =
    (FromOn-later (suc n) t.seq m (ground (arith, f.0)) f.1, FromOn-SeqsDiffer (suc n) m f.1)

-- After any calls of BroadcastTransaction and of the confirm handler on a new DummySender, fewer
-- than 2^63 of them, getBroadcastedTransactions lists the transactions with the numbers 0, 1, 2
-- and so on, in whatever order its loop over the map comes to them, and the next number is how
-- many there are.
pub get_broadcasted_transactions-CountsFrom :
    (ops : List DummyOp) (visited : List DummyTransaction)
    → length ops < i64_half
    → Permᴰ (txns_of (dummy_run ops new_dummy_sender).broadcast_txns) visited
    → CountsFrom 0 (get_broadcasted_transactions visited)
      × (length (get_broadcasted_transactions visited) ≡ (dummy_run ops new_dummy_sender).seq)
unfolding get_broadcasted_transactions new_dummy_sender
get_broadcasted_transactions-CountsFrom ops visited small order =
    let (h, b) =
      dummy_run-IsNumbered ops new_dummy_sender (ground arith)
        (record { numbers = tt; counted = refl }) in
    let m = (dummy_run ops new_dummy_sender).broadcast_txns in
    let few : 0 + length m < i64_half = ground (arith, h.counted) in
    let (c, l) = sort_by_seq-CountsFrom 0 m few h.numbers in
    let same =
      sort_by_seq-perm order (FromOn-IsSmall 0 m few h.numbers) (FromOn-SeqsDiffer 0 m h.numbers) in
    (subst (CountsFrom 0) same c, sym (ap length same) ∙ l ∙ sym h.counted)
