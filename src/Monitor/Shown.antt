-- ===== src/Monitor/Shown.antt =====
-- Which deposits the monitor (src/monitor/monitor.go) shows.
use teller.Common.{
  ◌≡◌, ◌≢◌, ◌↔◌, inl, inr, refl, ap, ◌∙◌, subst, arith, true, false, List, [], ◌∷◌, Text, is_empty,
  Result-cases, ok, Any, some,
}
use teller.Bolt.{Bolt}
use teller.Dbutil.{view, for_each}
use teller.Dbutil.Collecting.{for_each-collect}
use teller.Db.{Db}
use teller.Db.Access.{read_only, for_each_object}
use teller.Exchange.Types.{
  Status, wait_deposit, wait_send, wait_partial, wait_confirm, done, unknown, wait_decide,
  DepositInfo, is_status,
}
use teller.Exchange.Deposit.{status_string}
use teller.Exchange.Deposit.Laws.{new_status_from_str-status_string}
use teller.Exchange.Store.Queries.{keep_if, get_deposit_info_array}
use teller.Exchange.Facade.{DepositStatusDetail, detail_of, details, get_deposit_status_detail}
use teller.Teller.Http.{answered, method_get}
use teller.Monitor.{has_status, by_status, deposit_status}

is_status_iff : (s t : Status) → (is_status s t ≡ true) ↔ (s ≡ t)
is_status_iff s t = (λ h. ground arith, λ h. ground arith)

details_member :
    (l : List DepositInfo) (x : DepositStatusDetail)
    → Any (λ (y : DepositStatusDetail). y ≡ x) (details l)
      ↔ ((di : DepositInfo) × Any (λ (y : DepositInfo). y ≡ di) l × (detail_of di ≡ x))
unfolding details
details_member [] x = (λ h. elim h [ ], λ h. elim h.1 [ ])
details_member (d ∷ l) x = (
  elim [
    | inl here ↦ (d, inl refl, here)
    | inr h ↦ let (di, m, e) = (details_member l x).0 h in (di, inr m, e)
  ],
  λ h. elim h.1 [
    | inl same ↦ inl (ap detail_of same ∙ h.2)
    | inr m ↦ inr ((details_member l x).1 (h.0, m, h.2))
  ],
)

status_string-named : (st : Status) → is_empty (status_string st) ≡ false
unfolding status_string
status_string-named wait_deposit = refl
status_string-named wait_send = refl
status_string-named wait_partial = refl
status_string-named wait_confirm = refl
status_string-named done = refl
status_string-named unknown = refl
status_string-named wait_decide = refl

module _ ⦃b : Bolt⦄ where
  -- A deposit of the database with this status and these details.
  abbrev pub Stored : Status → DepositStatusDetail → Db → Type 0
  Stored st x db =
      (k : Text) × (di : DepositInfo) × (view db.deposit_info k ≡ some di)
      × (di.status ≡ st)
      × (detail_of di ≡ x)

  array_iff :
      (st : Status) (db : Db) (x : DepositStatusDetail) {dis : List DepositInfo}
      → get_deposit_info_array (has_status st) db ≡ ok dis
      → Any (λ (y : DepositStatusDetail). y ≡ x) (details dis) ↔ Stored st x db
  unfolding get_deposit_info_array read_only for_each_object
  array_iff st db x {dis} h =
      let visited : for_each db.deposit_info (keep_if (has_status st)) [] ≡ ok dis = ground arith in
      (
        λ m.
            let (di, here, e) = (details_member dis x).0 m in
            let (k, there, has) =
              (for_each-collect (has_status st) db.deposit_info di visited).0 here in
            (k, di, there, (is_status_iff di.status st).0 has, e),
        λ (k, di, there, has, e). (details_member dis x).1 (
          di,
          (for_each-collect (has_status st) db.deposit_info di visited).1
              (k, there, (is_status_iff di.status st).1 has),
          e,
        ),
      )

  by_status-answered :
      (st : Status) (db : Db) {l : List DepositStatusDetail}
      → st ≢ unknown
      → by_status st db ≡ answered l
      → (dis : List DepositInfo) × (get_deposit_info_array (has_status st) db ≡ ok dis)
        × (details dis ≡ l)
  unfolding by_status get_deposit_status_detail
  by_status-answered st db known h =
      elim (Result-cases (get_deposit_info_array (has_status st) db)) [
        | inl (e, bad) ↦ absurd (ground (arith, is_status_iff st unknown))
        | inr (dis, good) ↦ (dis, good, ground (arith, is_status_iff st unknown))
      ]

  -- When the handler depositStatus of the monitor answers a GET for the name of a status other
  -- than the unknown one, an entry is in its answer exactly when it has the details of a
  -- DepositInfo that the database stores under some key with this status.
  pub deposit_status_iff :
      (st : Status) (db : Db) (x : DepositStatusDetail) {l : List DepositStatusDetail}
      → st ≢ unknown
      → deposit_status method_get (status_string st) db ≡ answered l
      → Any (λ (y : DepositStatusDetail). y ≡ x) l ↔ Stored st x db
  unfolding deposit_status
  deposit_status_iff st db x {l} known h =
      let named = status_string-named st in
      let asked : by_status st db ≡ answered l =
        ground (arith, new_status_from_str-status_string st) in
      let (dis, got, same) = by_status-answered st db known asked in
      subst (λ r. Any (λ (y : DepositStatusDetail). y ≡ x) r ↔ Stored st x db) same
        (array_iff st db x got)
