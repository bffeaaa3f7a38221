-- ===== src/Sender/Retrying.antt =====
-- When a request of src/sender/kitty.go gets its answer.
use teller.Common.{
  ◌≡◌, ◌↔◌, inl, inr, refl, ap, ◌∙◌, arith, Bool, true, false, Bool-cases, some, List, [], ◌∷◌,
  ◌++◌, Text, is_empty, Result-cases, ok, err, Error, All,
}
use teller.Sender.{
  Attempt, returned, verify_confirm, confirmed_response, confirm_rounds, confirm_retry,
  is_tx_confirmed,
}

-- An attempt that failed, after which the service goes on.
abbrev pub Failed : {A : Type 0} → Attempt A → Type 0
Failed t = (t.quit ≡ false) × ((e : Error) × (t.answer ≡ err e))

-- The first answer without an error comes before any wish to quit.
pub record Answered (ts : List (Attempt (Unit {0}))) : Type 0 where
  pub early : List (Attempt (Unit {0}))
  pub good : Attempt (Unit {0})
  pub later : List (Attempt (Unit {0}))
  pub parts : ts ≡ early ++ (good ∷ later)
  pub failed : All Failed early
  pub answer : good.answer ≡ ok tt

module _ (is_sha : Text → Bool) (txid : Text) where
  rounds-Answered :
      (ts : List (Attempt (Unit {0})))
      → confirm_rounds is_sha txid ts ≡ returned (ok confirmed_response)
      → (is_sha txid ≡ true) × Answered ts
  unfolding confirm_rounds
  rounds-Answered [] h = absurd (ground arith)
  rounds-Answered (t ∷ ts) h = elim (Result-cases t.answer) [
    | inr (u, good) ↦ (
      ground arith,
      record { early = []; good = t; later = ts; parts = refl; failed = tt; answer = good },
    )
    | inl (e, bad) ↦
        let (sha, a) = rounds-Answered ts (ground arith) in
        (
          sha,
          record {
            early = t ∷ a.early;
            good = a.good;
            later = a.later;
            parts = ap (λ l. t ∷ l) a.parts;
            failed = ((ground arith, (e, bad)), a.failed);
            answer = a.answer;
          },
        )
  ]

  rounds-answer :
      (early : List (Attempt (Unit {0}))) (good : Attempt (Unit {0}))
      (later : List (Attempt (Unit {0})))
      → is_sha txid ≡ true
      → All Failed early
      → good.answer ≡ ok tt
      → confirm_rounds is_sha txid (early ++ (good ∷ later)) ≡ returned (ok confirmed_response)
  unfolding confirm_rounds
  rounds-answer [] good later sha failed answer = ground arith
  rounds-answer (t ∷ early) good later sha failed answer =
      ground (arith, failed.0, rounds-answer early good later sha failed.1 answer)

  -- The answer to IsTxConfirmed is that the transaction is confirmed exactly when its Txid is
  -- not empty and is a hash, and among the attempts to read it from the node there is one
  -- without an error before which all failed and none came with a wish to quit.
  pub is_tx_confirmed_iff :
      (ts : List (Attempt (Unit {0})))
      → (is_tx_confirmed is_sha txid ts ≡ some (some confirmed_response))
        ↔ ((is_empty txid ≡ false) × (is_sha txid ≡ true) × Answered ts)
  unfolding is_tx_confirmed confirm_retry verify_confirm
  is_tx_confirmed_iff ts = (
    λ h. elim (Bool-cases (is_empty txid)) [
      | inl blank ↦ absurd (ground arith)
      | inr named ↦ let (sha, a) = rounds-Answered ts (ground arith) in (named, sha, a)
    ],
    λ h.
        let a = h.2 in
        let done = rounds-answer a.early a.good a.later h.1 a.failed a.answer in
        let all : confirm_rounds is_sha txid ts ≡ returned (ok confirmed_response) =
          ap (confirm_rounds is_sha txid) a.parts ∙ done in
        ground arith,
  )
