-- ===== src/Teller/Http/Reserve/Unanswered.antt =====
-- What a client of the reservation handler gets.
use teller.Common.{
  ◌≡◌, ◌⊎◌, inl, inr, refl, arith, ℕ, Bool-cases, none, Text, Result, ok, err, decimal,
}
use teller.Bolt.{Bolt}
use teller.Db.{Db}
use teller.Addrs.{AddrManager}
use teller.Agent.Managers.{Agent}
use teller.Exchange.Types.{BoundAddress}
use teller.Exchange.Receive.Inside.{Call, answered, blocked}
use teller.Teller.Service.{service_bind_address_tx}
use teller.Teller.Service.Binding.{NoAddress, service_bind_address_tx-NoAddress}
use teller.Teller.Http.{Message, Response, failed, hanging, panicked}
use teller.Teller.Http.Reserve.{
  ReservationRequest, Body, Setting, check_request, bind_code, bind_message, Handled, after_bind,
  checked, make_reservation_handler,
}

module _ ⦃b : Bolt⦄ where
  -- An error code, or no response at all; the agent and the database are as before.
  abbrev pub Unanswered : Agent → Db → Handled → Type 0
  Unanswered a db h =
      ((h.0 ≡ hanging) ⊎ ((h.0 ≡ panicked) ⊎ ((code : ℕ) × (m : Message) × (h.0 ≡ failed code m))))
      × (h.2 ≡ a)
      × (h.3 ≡ db)

  after_bind-Unanswered :
      (s : Setting) (r : ReservationRequest) (a : Agent) (db : Db)
      (c : Call (Result (BoundAddress × Db)) × AddrManager)
      → NoAddress c.0
      → Unanswered a db (after_bind s r a db c)
  unfolding after_bind
  after_bind-Unanswered s r a db (blocked, am) shut = (inl refl, refl, refl)
  after_bind-Unanswered s r a db (answered (err e), am) shut =
      (inr (inr (bind_code e, bind_message e, refl)), refl, refl)
  after_bind-Unanswered s r a db (answered (ok (bound, tx)), am) shut =
      absurd (elim shut [ inl h ↦ ground arith | inr (e, h) ↦ ground arith ])

  checked-Unanswered :
      (s : Setting) (am : AddrManager) (a : Agent) (db : Db) (q : Response ReservationRequest)
      → ((c : Text) → s.stand_ins c ≡ none)
      → Unanswered a db (checked s am a db q)
  unfolding checked
  checked-Unanswered s am a db (failed code m) nodes = (inr (inr (code, m, refl)), refl, refl)
  checked-Unanswered s am a db hanging nodes = (inl refl, refl, refl)
  checked-Unanswered s am a db panicked nodes = (inr (inl refl), refl, refl)
  checked-Unanswered s am a db (Response.answered r) nodes = elim (Bool-cases s.begins) [
    | inl begun ↦
        rw (checked, begun)
          (after_bind-Unanswered s r a db
            (service_bind_address_tx s.bind_enabled s.coins s.stand_ins am (decimal r.kitty_id)
              r.coin_type db db)
            (service_bind_address_tx-NoAddress s.bind_enabled s.coins s.stand_ins am
              (decimal r.kitty_id) r.coin_type db db (nodes r.coin_type)))
    | inr not_begun ↦ rw (checked, not_begun) (inr (inr (500, _, refl)), refl, refl)
  ]

  -- When no stand-in scanner (src/scanner/dummy.go) is configured, MakeReservationHandler never
  -- answers a request with a reservation, whatever the request, the rest of the configuration,
  -- the pools, the agent and the database: it answers with an error code, it panics (on the body
  -- null), or it does not come to its end because BindAddressTx waits for the transaction that
  -- the handler has open. The agent and the database that the others see are as before.
  pub make_reservation_handler-Unanswered :
      (s : Setting) (method content_type : Text) (body : Body) (am : AddrManager) (a : Agent)
      (db : Db)
      → ((c : Text) → s.stand_ins c ≡ none)
      → Unanswered a db (make_reservation_handler s method content_type body am a db)
  unfolding make_reservation_handler
  make_reservation_handler-Unanswered s method content_type body am a db nodes =
      checked-Unanswered s am a db (check_request s method content_type body) nodes
