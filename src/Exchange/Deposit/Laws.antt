-- ===== src/Exchange/Deposit/Laws.antt =====
-- What the checks of a DepositInfo accept, and the deposit IDs that the scanner makes.
use teller.Common.{
  ℕ, ◌<◌, ◌≡◌, ◌≢◌, refl, ap, sym, ◌∙◌, arith, true, false, [], ◌∷◌, some, Text, text_eq, Lacks,
  split, split-pair, is_empty, decimal, decimal-injective, decimal-Lacks, parse_int64,
  parse_int64-decimal, i64_half,
}
use teller.Scanner.Types.{Deposit, id}
use teller.Exchange.Types.{Status, wait_deposit}
use teller.Exchange.Deposit.{status_string, new_status_from_str, is_valid_btc_tx}

-- NewStatusFromStr reads back the text of every status.
pub new_status_from_str-status_string : (s : Status) → new_status_from_str (status_string s) ≡ s
unfolding new_status_from_str status_string text_eq
new_status_from_str-status_string wait_deposit = refl
new_status_from_str-status_string _ = refl

split-id : (d : Deposit) → Lacks b':' d.tx → split b':' (id d) ≡ d.tx ∷ decimal d.n ∷ []
unfolding id
split-id d h = split-pair b':' d.tx (decimal d.n) h (decimal-Lacks d.n b':' (omega arith))

-- Two deposits whose transaction hashes have no colon and whose IDs are equal have the same
-- transaction hash and output number.
pub id-injective :
    (d e : Deposit) → Lacks b':' d.tx → Lacks b':' e.tx → id d ≡ id e → (d.tx ≡ e.tx) × (d.n ≡ e.n)
id-injective d e hd he same =
    let parts : d.tx ∷ decimal d.n ∷ [] ≡ e.tx ∷ decimal e.n ∷ [] =
      sym (split-id d hd) ∙ ap (split b':') same ∙ split-id e he in
    (cc, decimal-injective d.n e.n (cc))

nonempty_of_parse : (q : Text) {n : ℕ} → parse_int64 q ≡ some n → is_empty q ≡ false
unfolding parse_int64
nonempty_of_parse [] v = cc
nonempty_of_parse (y ∷ q) v = refl

nonempty_of_ne : (p : Text) → p ≢ [] → is_empty p ≡ false
nonempty_of_ne [] ne = absurd (ne refl)
nonempty_of_ne (x ∷ p) ne = refl

nonempty_of_split : (t p q : Text) → split b':' t ≡ p ∷ q ∷ [] → is_empty t ≡ false
unfolding split
nonempty_of_split [] p q e = cc
nonempty_of_split (c ∷ t) p q e = refl

valid_of_split :
    (t p q : Text) {n : ℕ}
    → split b':' t ≡ p ∷ q ∷ []
    → p ≢ []
    → parse_int64 q ≡ some n
    → is_valid_btc_tx t ≡ true
unfolding is_valid_btc_tx
valid_of_split t p q e ne v =
    rw (nonempty_of_split t p q e)
      (rw e (rw (nonempty_of_ne p ne) (rw (nonempty_of_parse q v) (rw v))))

-- The ID of a deposit whose transaction hash is not blank and has no colon, and whose output
-- number is below 2^63, passes isValidBtcTx.
pub id-is_valid_btc_tx :
    (d : Deposit) → Lacks b':' d.tx → d.tx ≢ [] → d.n < i64_half → is_valid_btc_tx (id d) ≡ true
id-is_valid_btc_tx d h ne small =
    valid_of_split (id d) d.tx (decimal d.n) (split-id d h) ne (parse_int64-decimal d.n small)
