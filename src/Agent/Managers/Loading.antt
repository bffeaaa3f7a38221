-- ===== src/Agent/Managers/Loading.antt =====
-- The users that New of src/agent/agent.go loads into the map.
use teller.Common.{
  ◌≡◌, inl, inr, refl, arith, some, none, List, [], ◌∷◌, ◌++◌, Text, text_eq_iff, find, find-set,
  StringMap, Any,
}
use teller.Agent.Types.{User}
use teller.Agent.Managers.{UserLoop, user_rounds, through, load_users}

user_rounds-variable :
    (us : List User) (z : User) (s : UserLoop) → (user_rounds (us ++ (z ∷ [])) s).variable ≡ some z
unfolding user_rounds
user_rounds-variable [] z s = refl
user_rounds-variable (u ∷ us) z s = user_rounds-variable us z _

user_rounds_keep :
    (us : List User) (s : UserLoop) (k : Text)
    → find k s.pointers ≡ some tt
    → find k (user_rounds us s).pointers ≡ some tt
unfolding user_rounds
user_rounds_keep [] s k h = h
user_rounds_keep (u ∷ us) s k h =
    user_rounds_keep us _ k (ground (arith, find-set u.address k tt s.pointers))

user_rounds-pointers :
    (us : List User) (s : UserLoop) (u : User)
    → Any (λ (x : User). x ≡ u) us
    → find u.address (user_rounds us s).pointers ≡ some tt
unfolding user_rounds
user_rounds-pointers [] s u h = elim h [ ]
user_rounds-pointers (v ∷ us) s u (inl e) =
    user_rounds_keep us _ u.address (
      ground
        (arith, find-set v.address u.address tt s.pointers, text_eq_iff v.address u.address, e))
user_rounds-pointers (v ∷ us) s u (inr h) = user_rounds-pointers us _ u h

find-through :
    (z : User) (m : StringMap (Unit {0})) (k : Text)
    → find k m ≡ some tt
    → find k (through (some z) m) ≡ some z
unfolding find through
find-through z [] k h = absurd (ground arith)
find-through z ((j, p) ∷ m) k h = ground (arith, find-through z m k)

-- Under the address of each of the users that New reads from the database, the map of users
-- holds the last one of them.
pub load_users_all_last :
    (us : List User) (z u : User)
    → Any (λ (x : User). x ≡ u) (us ++ (z ∷ []))
    → find u.address (load_users (us ++ (z ∷ []))) ≡ some z
unfolding load_users
load_users_all_last us z u h =
    let s : UserLoop = record { variable = none; pointers = [] } in
    rw (user_rounds-variable us z s) (
      find-through z (user_rounds (us ++ (z ∷ [])) s).pointers u.address
        (user_rounds-pointers (us ++ (z ∷ [])) s u h))
