-- ===== src/System/Invariant/Steps.antt =====
-- Every step of the service keeps what holds in its reachable states.
use teller.Common.{
  ℕ, zero, suc, some, ◌≡◌, inl, refl, sym, ap, ◌∙◌, subst, arith, Bool, false, Option, none, List,
  [], ◌∷◌, ok, All, All-append, All-of,
}
use teller.Bolt.{Bolt}
use teller.Dbutil.{for_each}
use teller.Dbutil.Collecting.{for_each-collect}
use teller.Db.{Db}
use teller.Db.Access.{read_only, for_each_object}
use teller.Scanner.Types.{Deposit}
use teller.Scanner.Store.{get_unprocessed_deposits}
use teller.Scanner.Store.Rescan.{scan_block-PushedAll}
use teller.Scanner.Store.Unprocessed.{get_unprocessed_deposits_iff}
use teller.Exchange.Types.{DepositInfo}
use teller.Exchange.Store.{get_or_create_deposit_info}
use teller.Exchange.Store.Queries.{keep_if, get_deposit_info_array}
use teller.Exchange.Buy.{update_status, buy_round}
use teller.Exchange.Buy.Payment.{buy_round-none}
use teller.System.{
  idle, asking, answered, out_list, cut, has_wait_send, has_wait_confirm, System, Step, scan,
  take_next, receive, mark, buy, has_wait_decide, reload, load, flush, send, bind, elsewhere,
  restart, resume, IsUnused, Reach, start, later,
}
use teller.System.Database.{IsSound, IsOpen, scan_block-IsSound}
use teller.System.Growth.{update_status-IsSound}
use teller.System.Kept.{
  Grows, Grows-refl, scan_block-Grows, update_status-Grows, SameDeposits,
  receive_bind_address-SameDeposits, same-IsSound, same-Grows,
}
use teller.System.Invariant.{
  HandSound, IsQueued, PipeSound, IsBlank, Inv, pipe-Grows, pipes_set, All-cut, pushed-IsQueued,
  marked-IsSound, received-IsSound,
}

module _ ⦃b : Bolt⦄ where
  unprocessed-IsQueued :
      (db : Db) (dvs : List Deposit)
      → IsSound db
      → get_unprocessed_deposits db ≡ ok dvs
      → All (IsQueued db) dvs
  unprocessed-IsQueued db dvs inv h = All-of dvs (λ d m.
      let (k, there, st) = (get_unprocessed_deposits_iff db d h).0 m in
      let key = inv.keyed k d there in ground (arith, there, key))

  loaded_none :
      (flt : DepositInfo → Bool) (db : Db) (dis : List DepositInfo)
      → ((di : DepositInfo) → IsOpen di.status → flt di ≡ false)
      → IsSound db
      → get_deposit_info_array flt db ≡ ok dis
      → dis ≡ []
  unfolding get_deposit_info_array read_only for_each_object
  loaded_none flt db [] shut inv h = refl
  loaded_none flt db (di ∷ dis) shut inv h =
      let visited : for_each db.deposit_info (keep_if flt) [] ≡ ok (di ∷ dis) = ground arith in
      let (k, there, waits) = (for_each-collect flt db.deposit_info di visited).0 (inl refl) in
      absurd (ground (arith, shut di (inv.is_open k di there)))

  bought-IsSound :
      (now : ℕ) (di : DepositInfo) (db : Db) {out : Option DepositInfo} {db' : Db}
      → IsSound db
      → di.txid ≡ []
      → buy_round now di db ≡ (out, db')
      → IsSound db' × Grows db db' × (out ≡ none)
  unfolding buy_round
  bought-IsSound now di db {out} {db'} inv blank h =
      let r = update_status now di db in
      let same : r.1 ≡ db' = ap (λ (x : Option DepositInfo × Db). x.1) h in
      (
        subst IsSound same (update_status-IsSound now di db r inv blank refl),
        subst (Grows db) same (update_status-Grows now di db r blank refl),
        sym (ap (λ (x : Option DepositInfo × Db). x.0) h) ∙ buy_round-none now di db,
      )

  cut_nothing : (queued : Option ℕ) → cut {A = DepositInfo} queued [] ≡ []
  cut_nothing none = refl
  cut_nothing (some zero) = refl
  cut_nothing (some (suc n)) = refl

  -- What is loaded from a sound database has no Txid.
  waiting-IsBlank :
      (flt : DepositInfo → Bool) (db : Db) (dis : List DepositInfo)
      → IsSound db
      → get_deposit_info_array flt db ≡ ok dis
      → All IsBlank dis
  unfolding get_deposit_info_array read_only for_each_object
  waiting-IsBlank flt db dis inv h =
      let visited : for_each db.deposit_info (keep_if flt) [] ≡ ok dis = ground arith in
      All-of dis (λ di m.
        let (k, there, waits) = (for_each-collect flt db.deposit_info di visited).0 m in
        inv.no_txid k di there)

  pub Step-Inv : {s t : System} → Step s t → Inv s → Inv t
  Step-Inv {s} (scan c block sent {dvs} {db'} h) inv =
      let g = scan_block-Grows block c s.db h in
      let p = inv.piped c in
      record {
        sound = scan_block-IsSound block c s.db inv.sound h;
        piped = pipes_set s.db db' c _ s.pipes g inv.piped (record {
          queued =
              All-append (IsQueued db') (s.pipes c).queue (cut sent dvs)
                ((pipe-Grows s.db db' (s.pipes c) g p).queued)
                (All-cut (IsQueued db') sent dvs
                  (pushed-IsQueued dvs _ s.db db' (scan_block-PushedAll block c s.db h)));
          held = (pipe-Grows s.db db' (s.pipes c) g p).held;
        });
        blank = inv.blank;
        unpaid = inv.unpaid;
      }
  Step-Inv {s} (take_next c dv rest h) inv =
      let p : PipeSound s.db (record { queue = dv ∷ rest; hand = idle }) =
        subst (PipeSound s.db) h (inv.piped c) in
      record {
        sound = inv.sound;
        piped =
            pipes_set s.db s.db c _ s.pipes (Grows-refl s.db) inv.piped
              (record { queued = p.queued.1; held = p.queued.0 });
        blank = inv.blank;
        unpaid = inv.unpaid;
      }
  Step-Inv {s} (receive c now dv {answer} {out} {db'} asked h) inv =
      let held : HandSound s.db (asking dv) = subst (HandSound s.db) asked (inv.piped c).held in
      let (sound, g, hand, blank) =
        received-IsSound now dv s.db (get_or_create_deposit_info now dv s.db) inv.sound held refl
          h in
      record {
        sound = sound;
        piped = pipes_set s.db db' c _ s.pipes g inv.piped (record {
          queued = (pipe-Grows s.db db' (s.pipes c) g (inv.piped c)).queued;
          held = hand;
        });
        blank = All-append IsBlank s.received (out_list out) inv.blank blank;
        unpaid = inv.unpaid;
      }
  Step-Inv {s} (mark c dv {e} {db'} got h) inv =
      let held : HandSound s.db (answered dv) = subst (HandSound s.db) got (inv.piped c).held in
      let (sound, g) = marked-IsSound dv s.db inv.sound held h in
      record {
        sound = sound;
        piped = pipes_set s.db db' c _ s.pipes g inv.piped (record {
          queued = (pipe-Grows s.db db' (s.pipes c) g (inv.piped c)).queued;
          held = tt;
        });
        blank = inv.blank;
        unpaid = inv.unpaid;
      }
  Step-Inv {s} (buy now di rest {out} {db'} next h) inv =
      let blank : All IsBlank (di ∷ rest) = subst (All IsBlank) next inv.blank in
      let (sound, g, nothing) = bought-IsSound now di s.db inv.sound blank.0 h in
      record {
        sound = sound;
        piped = λ c. pipe-Grows s.db db' (s.pipes c) g (inv.piped c);
        blank = blank.1;
        unpaid = ground (arith, inv.unpaid, nothing);
      }
  Step-Inv {s} (load queued {sends} {confirms} h h') inv =
      let no_sends = loaded_none has_wait_send s.db sends (λ di open'. ground arith) inv.sound h in
      let no_confirms =
        loaded_none has_wait_confirm s.db confirms (λ di open'. ground arith) inv.sound h' in
      record {
        sound = inv.sound;
        piped = inv.piped;
        blank = inv.blank;
        unpaid = rw (inv.unpaid, no_sends, no_confirms) (cut_nothing queued);
      }
  Step-Inv {s} (reload queued {waiting} h) inv = record {
    sound = inv.sound;
    piped = inv.piped;
    blank =
        All-append IsBlank s.received (cut queued waiting) inv.blank (
          All-cut IsBlank queued waiting
            (waiting-IsBlank has_wait_decide s.db waiting inv.sound h));
    unpaid = inv.unpaid;
  }
  Step-Inv {s} (flush di rest next) inv = absurd (ground (arith, inv.unpaid))
  Step-Inv {s} (elsewhere reservations users owners btc sky) inv =
      let db' = record s.db {
        reservations_kitty = reservations;
        users = users;
        kitty_owner = owners;
        used_btc_address = btc;
        used_sky_address = sky;
      } in
      let same : SameDeposits s.db db' = record { values = refl; infos = refl; seqs = refl } in
      record {
        sound = same-IsSound s.db db' same inv.sound;
        piped = λ c. pipe-Grows s.db db' (s.pipes c) (same-Grows s.db db' same) (inv.piped c);
        blank = inv.blank;
        unpaid = inv.unpaid;
      }
  Step-Inv {s} (send di rest rounds next) inv = absurd (ground (arith, inv.unpaid))
  Step-Inv {s} (bind coins kitty_id addr c {r} {db'} h) inv =
      let same = receive_bind_address-SameDeposits coins kitty_id addr c s.db h in
      record {
        sound = same-IsSound s.db db' same inv.sound;
        piped = λ c. pipe-Grows s.db db' (s.pipes c) (same-Grows s.db db' same) (inv.piped c);
        blank = inv.blank;
        unpaid = inv.unpaid;
      }
  Step-Inv {s} restart inv = record {
    sound = inv.sound;
    piped = λ c. record { queued = tt; held = tt };
    blank = tt;
    unpaid = refl;
  }
  Step-Inv {s} (resume c sent {dvs} h) inv = record {
    sound = inv.sound;
    piped = pipes_set s.db s.db c _ s.pipes (Grows-refl s.db) inv.piped (record {
      queued =
          All-append (IsQueued s.db) (s.pipes c).queue (cut sent dvs) (inv.piped c).queued
            (All-cut (IsQueued s.db) sent dvs (unprocessed-IsQueued s.db dvs inv.sound h));
      held = (inv.piped c).held;
    });
    blank = inv.blank;
    unpaid = inv.unpaid;
  }

  unused-IsSound : (db : Db) → IsUnused db → IsSound db
  unused-IsSound db u = record {
    keyed = λ k d e. absurd (ground (arith, u.no_deposit k));
    info_key = λ k di e. absurd (ground (arith, u.no_info k));
    no_txid = λ k di e. absurd (ground (arith, u.no_info k));
    is_open = λ k di e. absurd (ground (arith, u.no_info k));
    seen = λ k e. absurd (ground (arith, u.no_info k));
    recorded = λ k d e st. absurd (ground (arith, u.no_deposit k));
    no_seqs = u.no_seqs;
  }

  pub Reach-Inv : {s : System} → Reach s → Inv s
  Reach-Inv (start db u) = record {
    sound = unused-IsSound db u;
    piped = λ c. record { queued = tt; held = tt };
    blank = tt;
    unpaid = refl;
  }
  Reach-Inv (later r st) = Step-Inv st (Reach-Inv r)
