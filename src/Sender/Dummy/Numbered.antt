-- ===== src/Sender/Dummy/Numbered.antt =====
-- The numbers of the transactions of the stand-in (src/sender/dummy.go).
use teller.Common.{
  ℕ, suc, ◌+◌, ◌<◌, ◌≤◌, ◌≡◌, inl, inr, refl, sym, ap, ◌∙◌, subst, arith, Bool-cases, true, false,
  Option, Option-cases, none, some, List, [], ◌∷◌, length, Text, text_eq, is_empty, parse_int64,
  StringMap, find, set, i64_half, if◌then◌else◌,
}
use teller.Sender.Dummy.{
  DummyTransaction, DummySender, dummy_broadcast, find_seq, confirm_key, by_number, by_txid,
  confirm_handler, DummyOp, broadcast, confirm, dummy_run,
}

-- The numbers go up by one from `n`.
abbrev pub FromOn : ℕ → StringMap DummyTransaction → Type 0
FromOn n [] = Unit {0}
FromOn n ((k, t) ∷ m) = (t.seq ≡ n) × FromOn (suc n) m

pub record IsNumbered (s : DummySender) : Type 0 where
  pub numbers : FromOn 0 s.broadcast_txns
  pub counted : s.seq ≡ length s.broadcast_txns

set_new :
    (n : ℕ) (m : StringMap DummyTransaction) (k : Text) (t : DummyTransaction)
    → find k m ≡ none
    → FromOn n m
    → t.seq ≡ n + length m
    → FromOn n (set k t m) × (length (set k t m) ≡ suc (length m))
unfolding find set
set_new n [] k t gone f e = ((ground arith, tt), refl)
set_new n ((j, u) ∷ m) k t gone f e =
    let ih = set_new (suc n) m k t (ground arith) f.1 (ground arith) in
    elim (Bool-cases (text_eq j k)) [
      | inl same ↦ absurd (ground arith)
      | inr other ↦ rw (set, other) ((f.0, ih.0), ap suc ih.1)
    ]

-- A transaction that keeps its number.
set_same :
    (n : ℕ) (m : StringMap DummyTransaction) (k : Text) (t u : DummyTransaction)
    → find k m ≡ some u
    → t.seq ≡ u.seq
    → FromOn n m
    → FromOn n (set k t m) × (length (set k t m) ≡ length m)
unfolding find set
set_same n [] k t u there e f = absurd (ground arith)
set_same n ((j, v) ∷ m) k t u there e f = elim (Bool-cases (text_eq j k)) [
  | inl same ↦ rw (set, same) ((ground arith, f.1), refl)
  | inr other ↦
      let ih = set_same (suc n) m k t u (ground arith) e f.1 in
      rw (set, other) ((f.0, ih.0), ap suc ih.1)
]

dummy_broadcast-IsNumbered :
    (txid : Text) (s : DummySender)
    → suc (length s.broadcast_txns) < i64_half
    → IsNumbered s
    → IsNumbered (dummy_broadcast txid s).1
unfolding dummy_broadcast
dummy_broadcast-IsNumbered txid s small h = elim (Option-cases (find txid s.broadcast_txns)) [
  | inl gone ↦
      let (f, l) =
        set_new 0 s.broadcast_txns txid (record { confirmed = false; seq = s.seq }) gone h.numbers
          (ground (arith, h.counted)) in
      rw (dummy_broadcast, gone) (record { numbers = f; counted = ground (arith, l, h.counted) })
  | inr (t, there) ↦ rw (dummy_broadcast, there) h
]

confirm_key-IsNumbered :
    (k : Option Text) (s : DummySender) → IsNumbered s → IsNumbered (confirm_key k s).1
unfolding confirm_key
confirm_key-IsNumbered none s h = h
confirm_key-IsNumbered (some k) s h = elim (Option-cases (find k s.broadcast_txns)) [
  | inl gone ↦ rw (confirm_key, gone) h
  | inr (t, there) ↦
      let (f, l) =
        set_same 0 s.broadcast_txns k (record t { confirmed = true }) t there refl h.numbers in
      rw (confirm_key, there) (record { numbers = f; counted = h.counted ∙ sym l })
]

confirm_key-seq : (k : Option Text) (s : DummySender) → (confirm_key k s).1.seq ≡ s.seq
unfolding confirm_key
confirm_key-seq none s = refl
confirm_key-seq (some k) s = ground arith

-- The transaction that is to be confirmed.
key_of : Text → Text → DummySender → Option Text
key_of txid seq_str s =
    if is_empty txid
    then elim (parse_int64 seq_str) [
      | none ↦ none
      | some n ↦ (if is_empty seq_str then none else find_seq n s.broadcast_txns)
    ]
    else (if is_empty seq_str
        then some txid
        else elim (parse_int64 seq_str) [ none ↦ none | some n ↦ some txid ])

confirm_handler_key :
    (txid seq_str : Text) (s : DummySender)
    → (confirm_handler txid seq_str s).1 ≡ (confirm_key (key_of txid seq_str s) s).1
unfolding key_of confirm_handler by_number by_txid confirm_key
confirm_handler_key txid seq_str s = ground (arith, Option-cases (parse_int64 seq_str))

dummy_broadcast-seq :
    (txid : Text) (s : DummySender) → s.seq < i64_half → (dummy_broadcast txid s).1.seq ≤ suc s.seq
unfolding dummy_broadcast
dummy_broadcast-seq txid s small = ground arith

pub dummy_run-IsNumbered :
    (ops : List DummyOp) (s : DummySender)
    → s.seq + length ops < i64_half
    → IsNumbered s
    → IsNumbered (dummy_run ops s) × ((dummy_run ops s).seq < i64_half)
unfolding dummy_run
dummy_run-IsNumbered [] s small h = (h, ground arith)
dummy_run-IsNumbered (broadcast txid ∷ ops) s small h =
    dummy_run-IsNumbered ops (dummy_broadcast txid s).1
      (ground (arith, dummy_broadcast-seq txid s (ground arith)))
      (dummy_broadcast-IsNumbered txid s (ground (arith, h.counted)) h)
dummy_run-IsNumbered (confirm txid seq_str ∷ ops) s small h =
    let k = key_of txid seq_str s in
    subst (λ t. IsNumbered (dummy_run ops t) × ((dummy_run ops t).seq < i64_half))
      (sym (confirm_handler_key txid seq_str s))
      (dummy_run-IsNumbered ops (confirm_key k s).1 (ground (arith, confirm_key-seq k s))
        (confirm_key-IsNumbered k s h))
