-- ===== src/Agent/Starting/Loaded.antt =====
-- The reservations that New of src/agent/agent.go puts into the map.
use teller.Common.{
  ◌≡◌, inl, inr, refl, sym, ap, ◌∙◌, subst, arith, Bool-cases, true, Option-cases, none, some, List,
  [], ◌∷◌, Text, text_eq, text_eq_iff, Result-cases, ok, StringMap, find, set, find-set, Any, All,
  All-of, if◌then◌else◌, is_some,
}
use teller.Bolt.{Bolt}
use teller.Dbutil.{view, get_bucket_object}
use teller.Dbutil.Laws.{get_bucket_object-ok, get_bucket_object-not_exist}
use teller.Db.{Db}
use teller.Db.Access.{read_only, get_object, put_object}
use teller.Db.Buckets.{reservations_kitty_bkt}
use teller.Db.Laws.{put_object-ok, update-ok}
use teller.Agent.Types.{Reservation}
use teller.Agent.Store.{
  get_reservation_from_kitty_id, update_reservation_with_tx, update_reservation,
}
use teller.Agent.Managers.{Agent}
use teller.Agent.Starting.{
  Entry, kitty_key, offered, priced, stored, found_or_stored, load_kitty, load_kitties, with_users,
  new_agent,
}

module _ ⦃b : Bolt⦄ where
  -- The reservation of a kitty: that of the database, with the prices of an entry for this kitty.
  pub record Priced (es : List Entry) (k : Text) (r : Reservation) (db : Db) : Type 0 where
    pub entry : Entry
    pub offered_now : Any (λ (e : Entry). e ≡ entry) es
    pub keyed : kitty_key entry ≡ k
    pub in_db : Reservation
    pub there : view db.reservations_kitty k ≡ some in_db
    pub prices : r ≡ priced entry in_db

  abbrev pub Known : List Entry → StringMap Reservation → Db → Type 0
  Known es m db = (k : Text) (r : Reservation) → find k m ≡ some r → Priced es k r db

  abbrev pub Keeps : Db → Db → Type 0
  Keeps db db' =
      (k : Text) (r : Reservation)
      → view db.reservations_kitty k ≡ some r
      → view db'.reservations_kitty k ≡ some r

  -- A kitty has been loaded, or all of them.
  pub record Loads (es ds : List Entry) (m : StringMap Reservation) (db : Db)
      (m' : StringMap Reservation) (db' : Db) : Type 0 where
    pub known : Known es m' db'
    pub old : (k : Text) → is_some (find k m) ≡ true → is_some (find k m') ≡ true
    pub new : (e : Entry) → Any (λ (x : Entry). x ≡ e) ds → is_some (find (kitty_key e) m') ≡ true
    pub kept : Keeps db db'
    pub rest : db' ≡ record db { reservations_kitty = db'.reservations_kitty }

  update_reservation-ok :
      (r : Reservation) (db : Db) {u : Unit {0}} {db' : Db}
      → update_reservation r db ≡ (ok u, db')
      → ((j : Text)
          → view db'.reservations_kitty j
            ≡ (if text_eq r.kitty_id j then some r else view db.reservations_kitty j))
        × (db' ≡ record db { reservations_kitty = db'.reservations_kitty })
  unfolding update_reservation update_reservation_with_tx
  update_reservation-ok r db h =
      let (t, wrote, views, ne) =
        put_object-ok reservations_kitty_bkt r.kitty_id r db
          (update-ok (put_object reservations_kitty_bkt r.kitty_id r) db h) in
      (λ j. ground (arith, views j), ground arith)

  set-priced :
      (es : List Entry) (e : Entry) (m : StringMap Reservation) (db db' : Db) (r : Reservation)
      → Any (λ (x : Entry). x ≡ e) es
      → Keeps db db'
      → db' ≡ record db { reservations_kitty = db'.reservations_kitty }
      → Known es m db
      → view db'.reservations_kitty (kitty_key e) ≡ some r
      → Loads es (e ∷ []) m db (set (kitty_key e) (priced e r) m) db'
  set-priced es e m db db' r here kept rest inv there = record {
    known = λ k x h. elim (Bool-cases (text_eq (kitty_key e) k)) [
      | inl same ↦
          let key : kitty_key e ≡ k = (text_eq_iff (kitty_key e) k).0 same in
          record {
            entry = e;
            offered_now = here;
            keyed = key;
            in_db = r;
            there = ap (λ j. view db'.reservations_kitty j) (sym key) ∙ there;
            prices = ground (arith, find-set (kitty_key e) k (priced e r) m, h);
          }
      | inr other ↦
          let p = inv k x (ground (arith, find-set (kitty_key e) k (priced e r) m)) in
          record {
            entry = p.entry;
            offered_now = p.offered_now;
            keyed = p.keyed;
            in_db = p.in_db;
            there = kept k p.in_db p.there;
            prices = p.prices;
          }
    ];
    old = λ k h. ground (arith, find-set (kitty_key e) k (priced e r) m);
    new = λ x h. elim h [
      | inl same ↦ ground (
        arith,
        find-set (kitty_key e) (kitty_key x) (priced e r) m,
        ap kitty_key same,
        text_eq_iff (kitty_key e) (kitty_key x),
      )
      | inr bad ↦ elim bad [ ]
    ];
    kept = kept;
    rest = rest;
  }

  load_kitty-Loads :
      (es : List Entry) (e : Entry) (m : StringMap Reservation) (db : Db)
      {m' : StringMap Reservation} {db' : Db}
      → Any (λ (x : Entry). x ≡ e) es
      → Known es m db
      → load_kitty e m db ≡ some (m', db')
      → Loads es (e ∷ []) m db m' db'
  unfolding load_kitty found_or_stored stored get_reservation_from_kitty_id read_only get_object
  load_kitty-Loads es e m db {m'} {db'} here inv h =
      elim (Result-cases (get_bucket_object db.reservations_kitty (kitty_key e))) [
        | inr (r, there) ↦
            let set' : set (kitty_key e) (priced e r) m ≡ m' = ground arith in
            let same : db ≡ db' = ground arith in
            subst (λ x. Loads es (e ∷ []) m db x db') set'
              (subst (λ x. Loads es (e ∷ []) m db (set (kitty_key e) (priced e r) m) x) same
                (set-priced es e m db db r here (λ k x y. y) refl inv
                  (get_bucket_object-ok db.reservations_kitty (kitty_key e) r there)))
        | inl (x, bad) ↦ elim (Result-cases (update_reservation (offered e) db).0) [
          | inl (y, failed) ↦ absurd (ground arith)
          | inr (u, wrote) ↦
              let db1 = (update_reservation (offered e) db).1 in
              let (views, rest) =
                update_reservation-ok (offered e) db {u = u} {db' = db1} (ground arith) in
              let gone : view db.reservations_kitty (kitty_key e) ≡ none =
                get_bucket_object-not_exist db.reservations_kitty (kitty_key e) (ground arith) in
              let set' : set (kitty_key e) (offered e) m ≡ m' = ground arith in
              let same : db1 ≡ db' = ground arith in
              subst (λ x. Loads es (e ∷ []) m db x db') set'
                (subst (λ x. Loads es (e ∷ []) m db (set (kitty_key e) (offered e) m) x) same
                  (set-priced es e m db db1 (offered e) here
                    (λ k r y. ground (arith, views k, text_eq_iff (kitty_key e) k, gone)) rest inv
                    (ground (arith, views (kitty_key e), text_eq_iff (kitty_key e) (kitty_key e)))))
        ]
      ]

  load_kitties-Loads :
      (es ds : List Entry) (m : StringMap Reservation) (db : Db) {m' : StringMap Reservation}
      {db' : Db}
      → All (λ (d : Entry). Any (λ (x : Entry). x ≡ d) es) ds
      → Known es m db
      → load_kitties ds m db ≡ some (m', db')
      → Loads es ds m db m' db'
  unfolding load_kitties
  load_kitties-Loads es [] m db {m'} {db'} sub inv h =
      let same_m : m ≡ m' = ground arith in
      let same : db ≡ db' = ground arith in
      subst (λ x. Loads es [] m db x db') same_m
        (subst (λ x. Loads es [] m db m x) same
          (record {
            known = inv;
            old = λ k x. x;
            new = λ e x. elim x [ ];
            kept = λ k r x. x;
            rest = refl;
          }))
  load_kitties-Loads es (d ∷ ds) m db {m'} {db'} sub inv h =
      elim (Option-cases (load_kitty d m db)) [
        | inl stuck ↦ absurd (ground arith)
        | inr ((m1, db1), went) ↦
            let one = load_kitty-Loads es d m db sub.0 inv went in
            let more = load_kitties-Loads es ds m1 db1 sub.1 one.known (ground arith) in
            record {
              known = more.known;
              old = λ k x. more.old k (one.old k x);
              new = λ e x. elim x [
                | inl same ↦ more.old (kitty_key e) (one.new e (inl same))
                | inr y ↦ more.new e y
              ];
              kept = λ k r x. more.kept k r (one.kept k r x);
              rest = ground (arith, one.rest, more.rest);
            }
      ]

  empty-Known : (es : List Entry) (db : Db) → Known es [] db
  unfolding find
  empty-Known es db k r h = absurd (ground arith)

  -- When New succeeds, each entry of the kitty API has a reservation in the map, and each
  -- reservation of the map is the one that the database has for its kitty now, with the prices
  -- of an entry for this kitty; the reservations that were in the database before are as they
  -- were, and so is every other bucket.
  pub new_agent-Loads :
      (es : List Entry) (db : Db) {a : Agent} {db' : Db}
      → new_agent (ok es) db ≡ some (a, db')
      → Loads es es [] db a.reservations db'
  unfolding new_agent with_users
  new_agent-Loads es db {a} {db'} h = elim (Option-cases (load_kitties es [] db)) [
    | inl stuck ↦ absurd (ground arith)
    | inr ((m, db1), went) ↦
        let l = load_kitties-Loads es es [] db (All-of es (λ e x. x)) (empty-Known es db) went in
        let same_m : m ≡ a.reservations = ground arith in
        let same : db1 ≡ db' = ground arith in
        subst (λ x. Loads es es [] db x db') same_m (subst (λ x. Loads es es [] db m x) same l)
  ]
