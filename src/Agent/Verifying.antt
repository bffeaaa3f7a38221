-- ===== src/Agent/Verifying.antt =====
-- src/agent/verification.go: the service that checks the codes of the reservations. `posted` is what
-- the request comes to: the code of the response, or an error of the client; `none` is no error.
use teller.Common.{
  ℕ, ◌==◌, Bool, Option, none, some, Result, ok, err, Error, verification_failed, verify_timed_out,
  satisfy_failed, satisfy_timed_out, if◌then◌else◌,
}

-- The switch on the code: 204 is no content, 408 a timeout.
unfoldable pub judged : Error → Error → ℕ → Option Error
judged timed_out refused code =
    if code == 204 then none else if code == 408 then some timed_out else some refused

asked : Bool → Error → Error → Result ℕ → Option Error
unfolding judged
asked enabled timed_out refused posted =
    if enabled
    then elim posted [ err e ↦ some e | ok code ↦ judged timed_out refused code ]
    else none

-- Verifier.VerifyCode
unfoldable pub verify_code : Bool → Result ℕ → Option Error
unfolding asked
verify_code enabled posted = asked enabled verify_timed_out verification_failed posted

-- Verifier.SatisfyCode
unfoldable pub satisfy_code : Bool → Result ℕ → Option Error
unfolding asked
satisfy_code enabled posted = asked enabled satisfy_timed_out satisfy_failed posted
