-- ===== src/Exchange/Store/Recording.antt =====
-- GetOrCreateDepositInfo of src/exchange/store.go: a deposit is recorded once.
use teller.Common.{
  ℕ, ◌≡◌, sym, ◌∙◌, subst, arith, true, false, Bool-cases, Option, none, some, ◌++◌, [], ◌∷◌, Text,
  text_eq, text_eq_refl, text_eq_iff, ok, is_some, if◌then◌else◌, inl, inr,
}
use teller.Common.Txs.{bind_then, guard_then, or_throw_then, wrap-ok, wrap}
use teller.Bolt.{Bolt}
use teller.Dbutil.{view}
use teller.Db.{Db}
use teller.Db.Access.{find_object}
use teller.Db.Buckets.{deposit_info_bkt, deposit_track_bkt, reservations_kitty_bkt}
use teller.Db.Laws.{
  find_object-ok, find_object-some, put_object-ok, has_then, get_then, update-ok, update_commits,
}
use teller.Scanner.Types.{Deposit, id}
use teller.Exchange.Types.{BoundAddress, DepositInfo, DepositTrack}
use teller.Exchange.Deposit.{validate_for_status}
use teller.Exchange.Store.{
  or_nil, get_bind_address_tx, get_kitty_price_tx, new_track, create_deposit_track_tx,
  add_deposit_info_tx, new_deposit_info, create_deposit_info_tx, existing_or_create,
  get_or_create_tx, get_or_create_deposit_info,
}
use teller.Exchange.Store.Creation.{add_deposit_info_tx-Added}
use teller.Exchange.Store.Bindings.{bound_to, get_bind_address_tx-ok}

module _ ⦃b : Bolt⦄ where
  -- The address has a track, an old one as it was, and nothing else has changed.
  pub record Tracked (addr : Text) (db db' : Db) : Type 0 where
    pub exists : is_some (view db'.deposit_track addr) ≡ true
    pub kept :
        (j : Text) (t : DepositTrack)
        → view db.deposit_track j ≡ some t
        → view db'.deposit_track j ≡ some t
    pub rest : db' ≡ record db { deposit_track = db'.deposit_track }

  get_kitty_price_tx-same :
      (kitty_id coin_type : Text) (db : Db) {n : ℕ} {db' : Db}
      → get_kitty_price_tx kitty_id coin_type db ≡ ok (n, db')
      → db' ≡ db
  unfolding get_kitty_price_tx
  get_kitty_price_tx-same kitty_id coin_type db h =
      get_then reservations_kitty_bkt kitty_id _ db h λ r seen h1. ground arith

  new_track-Tracked :
      (bound : BoundAddress) (db : Db) {u : Unit {0}} {db' : Db}
      → is_some (view db.deposit_track bound.address) ≡ false
      → new_track bound db ≡ ok (u, db')
      → Tracked bound.address db db'
  unfolding new_track
  new_track-Tracked bound db absent h =
      bind_then (get_kitty_price_tx bound.kitty_id bound.coin_type) _ db h λ price db1 e h1.
        let same = get_kitty_price_tx-same bound.kitty_id bound.coin_type db e in
        let (t, wrote, views, ne) = put_object-ok deposit_track_bkt bound.address _ db1 h1 in
        record {
          exists = ground (arith, views bound.address, text_eq_refl bound.address);
          kept = λ j old k. ground (arith, views j, text_eq_iff bound.address j);
          rest = ground arith;
        }

  pub create_deposit_track_tx-Tracked :
      (bound : BoundAddress) (db : Db) {u : Unit {0}} {db' : Db}
      → create_deposit_track_tx bound db ≡ ok (u, db')
      → Tracked bound.address db db'
  unfolding create_deposit_track_tx
  create_deposit_track_tx-Tracked bound db {u} {db'} h =
      has_then deposit_track_bkt bound.address _ db h λ has seen h1. elim (Bool-cases has) [
        | inl there ↦ record {
          exists = ground arith;
          kept = λ j old k. ground arith;
          rest = ground arith;
        }
        | inr absent ↦ new_track-Tracked bound db (ground arith) (rw absent at h1)
      ]

  -- What a deposit that was not there before leaves behind: the address had a binding; the new
  -- DepositInfo is made from it, stored under the deposit's ID, listed for the address, and tracked.
  pub record Created (now : ℕ) (dv : Deposit) (db : Db) (di : DepositInfo) (db' : Db) : Type 0 where
    pub bound : BoundAddress
    pub is_bound : bound_to dv.coin_type dv.address db ≡ some bound
    pub same_coin : bound.coin_type ≡ dv.coin_type
    pub new_key : view db.deposit_info (id dv) ≡ none
    pub result : di ≡ record (new_deposit_info dv bound) { seq = di.seq; updated_at = now }
    pub valid : validate_for_status di ≡ ok tt
    pub infos :
        (j : Text)
        → view db'.deposit_info j ≡ (if text_eq (id dv) j then some di else view db.deposit_info j)
    pub txs :
        (j : Text)
        → view db'.deposit_txs j ≡ (
            if text_eq dv.address j
            then some (or_nil (view db.deposit_txs dv.address) ++ (id dv ∷ []))
            else view db.deposit_txs j)
    pub tracked : is_some (view db'.deposit_track bound.address) ≡ true
    pub tracks_kept :
        (j : Text) (t : DepositTrack)
        → view db.deposit_track j ≡ some t
        → view db'.deposit_track j ≡ some t
    pub rest : db' ≡ record db {
      deposit_info = db'.deposit_info;
      deposit_txs = db'.deposit_txs;
      deposit_track = db'.deposit_track;
    }

  create_deposit_info_tx-Created :
      (now : ℕ) (dv : Deposit) (db : Db) {di : DepositInfo} {db' : Db}
      → create_deposit_info_tx now dv db ≡ ok (di, db')
      → Created now dv db di db'
  unfolding create_deposit_info_tx
  create_deposit_info_tx-Created now dv db h =
      bind_then (wrap (get_bind_address_tx dv.address dv.coin_type)) _ db h λ found db1 e1 h1.
        or_throw_then found _ _ db1 h1 λ bound is_some_bound h2.
          bind_then (wrap (create_deposit_track_tx bound)) _ db1 h2 λ u db2 e2 h3.
            guard_then (text_eq bound.coin_type dv.coin_type) _ _ db2 h3 λ coin h4.
              let (seen, same) =
                get_bind_address_tx-ok dv.address dv.coin_type db
                  (wrap-ok (get_bind_address_tx dv.address dv.coin_type) db e1) in
              let track =
                create_deposit_track_tx-Tracked bound db1
                  (wrap-ok (create_deposit_track_tx bound) db1 e2) in
              let added =
                add_deposit_info_tx-Added now (new_deposit_info dv bound) db2
                  (wrap-ok (add_deposit_info_tx now (new_deposit_info dv bound)) db2 h4) in
              record {
                bound = bound;
                is_bound = ground arith;
                same_coin = ground (arith, text_eq_iff bound.coin_type dv.coin_type);
                new_key = ground (arith, added.new_key, track.rest);
                result = added.result;
                valid = added.valid;
                infos = λ j. ground (arith, added.infos j, track.rest);
                txs = λ j. ground (arith, added.txs j, track.rest);
                tracked = ground (arith, added.rest, track.exists);
                tracks_kept = λ j t k. ground (arith, added.rest, track.kept j t);
                rest = ground (arith, added.rest, track.rest);
              }

  existing_or_create-stored :
      (now : ℕ) (dv : Deposit) (o : Option DepositInfo) (db : Db) {di : DepositInfo} {db' : Db}
      → view db.deposit_info (id dv) ≡ o
      → existing_or_create now dv o db ≡ ok (di, db')
      → view db'.deposit_info (id dv) ≡ some di
  unfolding existing_or_create
  existing_or_create-stored now dv (some old) db seen h = ground arith
  existing_or_create-stored now dv none db seen h =
      let made = create_deposit_info_tx-Created now dv db h in
      ground (arith, made.infos (id dv), text_eq_refl (id dv))

  pub get_or_create_tx-stored :
      (now : ℕ) (dv : Deposit) (db : Db) {di : DepositInfo} {db' : Db}
      → get_or_create_tx now dv db ≡ ok (di, db')
      → view db'.deposit_info (id dv) ≡ some di
  unfolding get_or_create_tx
  get_or_create_tx-stored now dv db h =
      bind_then (wrap (find_object deposit_info_bkt (id dv))) _ db h λ found db1 e h1.
        let (seen, same) =
          find_object-ok deposit_info_bkt (id dv) db
            (wrap-ok (find_object deposit_info_bkt (id dv)) db e) in
        existing_or_create-stored now dv found db1 (ground arith) h1

  pub get_or_create_tx_known :
      (now : ℕ) (dv : Deposit) (db : Db) {di : DepositInfo}
      → view db.deposit_info (id dv) ≡ some di
      → get_or_create_tx now dv db ≡ ok (di, db)
  unfolding get_or_create_tx
  get_or_create_tx_known now dv db seen =
      ground (arith, find_object-some deposit_info_bkt (id dv) db seen)

  -- When GetOrCreateDepositInfo has succeeded on a deposit and commits go through, calling it
  -- again with the same deposit on the database that the first call has left, whatever the time
  -- is by then, returns the same DepositInfo and changes nothing.
  pub get_or_create_twice :
      (now later : ℕ) (dv : Deposit) (db : Db) {di : DepositInfo} {db' : Db}
      → get_or_create_deposit_info now dv db ≡ (ok di, db')
      → b.commits db' ≡ true
      → get_or_create_deposit_info later dv db' ≡ (ok di, db')
  unfolding get_or_create_deposit_info
  get_or_create_twice now later dv db {di} {db'} h c =
      update_commits (get_or_create_tx later dv) db'
        (get_or_create_tx_known later dv db'
          (get_or_create_tx-stored now dv db (update-ok (get_or_create_tx now dv) db h)))
        c

  existing_or_create-Created :
      (now : ℕ) (dv : Deposit) (o : Option DepositInfo) (db : Db) {di : DepositInfo} {db' : Db}
      → o ≡ none
      → existing_or_create now dv o db ≡ ok (di, db')
      → Created now dv db di db'
  unfolding existing_or_create
  existing_or_create-Created now dv (some old) db seen h = absurd (ground arith)
  existing_or_create-Created now dv none db seen h = create_deposit_info_tx-Created now dv db h

  -- When GetOrCreateDepositInfo succeeds on a deposit whose ID is not in the database, the
  -- deposit's address was bound to a kitty under the deposit's coin type; the DepositInfo
  -- returned is the one made of the deposit and that binding, with the sequence number and the
  -- time filled in, and is valid for its status; it is stored under the deposit's ID, the ID is
  -- appended to the list of the address, the address has a payment track, tracks that were there
  -- are kept, and nothing else has changed.
  pub get_or_create-Created :
      (now : ℕ) (dv : Deposit) (db : Db) {di : DepositInfo} {db' : Db}
      → view db.deposit_info (id dv) ≡ none
      → get_or_create_deposit_info now dv db ≡ (ok di, db')
      → Created now dv db di db'
  unfolding get_or_create_deposit_info get_or_create_tx
  get_or_create-Created now dv db {di} {db'} absent h =
      bind_then (wrap (find_object deposit_info_bkt (id dv))) _ db
        (update-ok (get_or_create_tx now dv) db h)
        λ found db1 e h1.
          let (seen, same) =
            find_object-ok deposit_info_bkt (id dv) db
              (wrap-ok (find_object deposit_info_bkt (id dv)) db e) in
          let empty : found ≡ none = sym seen ∙ absent in
          subst (λ d. Created now dv d di db') same
            (existing_or_create-Created now dv found db1 empty h1)
