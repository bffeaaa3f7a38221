-- ===== src/Db/Buckets.antt =====
-- The buckets' names: GetBindAddressBkt (src/exchange/store.go), GetScanMetaBkt
-- (src/scanner/store.go) and the package variables that name a bucket.
use teller.Common.{some, List, Text, text_eq, Result, ok, err, unsupported_coin_type, if◌then◌else◌}
use teller.Bolt.{Bolt}
use teller.Scanner.Types.{Deposit, coin_btc, coin_sky}
use teller.Exchange.Types.{BoundAddress, DepositInfo, DepositTrack}
use teller.Agent.Types.{Reservation, User}
use teller.Db.{Field}

module _ ⦃b : Bolt⦄ where
  abbrev pub deposit_info_bkt : Field DepositInfo
  deposit_info_bkt = record {
    read = λ db. db.deposit_info;
    write = λ db t. record db { deposit_info = some t };
  }

  abbrev pub txs_bkt : Field (List Text)
  txs_bkt = record {
    read = λ db. db.deposit_txs;
    write = λ db t. record db { deposit_txs = some t };
  }

  abbrev pub bind_address_btc_bkt : Field BoundAddress
  bind_address_btc_bkt = record {
    read = λ db. db.bind_address_btc;
    write = λ db t. record db { bind_address_btc = some t };
  }

  abbrev pub bind_address_sky_bkt : Field BoundAddress
  bind_address_sky_bkt = record {
    read = λ db. db.bind_address_sky;
    write = λ db t. record db { bind_address_sky = some t };
  }

  abbrev pub kitty_deposit_seqs_bkt : Field BoundAddress
  kitty_deposit_seqs_bkt = record {
    read = λ db. db.kitty_deposit_seqs;
    write = λ db t. record db { kitty_deposit_seqs = some t };
  }

  abbrev pub deposit_track_bkt : Field DepositTrack
  deposit_track_bkt = record {
    read = λ db. db.deposit_track;
    write = λ db t. record db { deposit_track = some t };
  }

  abbrev pub deposit_bkt : Field Deposit
  deposit_bkt = record {
    read = λ db. db.deposit_value;
    write = λ db t. record db { deposit_value = some t };
  }

  abbrev pub scan_meta_btc_bkt : Field (List Text)
  scan_meta_btc_bkt = record {
    read = λ db. db.scan_meta_btc;
    write = λ db t. record db { scan_meta_btc = some t };
  }

  abbrev pub scan_meta_sky_bkt : Field (List Text)
  scan_meta_sky_bkt = record {
    read = λ db. db.scan_meta_sky;
    write = λ db t. record db { scan_meta_sky = some t };
  }

  abbrev pub reservations_kitty_bkt : Field Reservation
  reservations_kitty_bkt = record {
    read = λ db. db.reservations_kitty;
    write = λ db t. record db { reservations_kitty = some t };
  }

  abbrev pub users_bkt : Field User
  users_bkt = record { read = λ db. db.users; write = λ db t. record db { users = some t } }

  abbrev pub kitty_owner_bkt : Field Text
  kitty_owner_bkt = record {
    read = λ db. db.kitty_owner;
    write = λ db t. record db { kitty_owner = some t };
  }

  abbrev pub used_btc_address_bkt : Field Text
  used_btc_address_bkt = record {
    read = λ db. db.used_btc_address;
    write = λ db t. record db { used_btc_address = some t };
  }

  abbrev pub used_sky_address_bkt : Field Text
  used_sky_address_bkt = record {
    read = λ db. db.used_sky_address;
    write = λ db t. record db { used_sky_address = some t };
  }

  -- GetBindAddressBkt
  unfoldable pub get_bind_address_bkt : Text → Result (Field BoundAddress)
  get_bind_address_bkt coin_type =
      if text_eq coin_type coin_btc
      then ok bind_address_btc_bkt
      else if text_eq coin_type coin_sky
      then ok bind_address_sky_bkt
      else err unsupported_coin_type

  -- GetScanMetaBkt
  unfoldable pub get_scan_meta_bkt : Text → Result (Field (List Text))
  get_scan_meta_bkt coin_type =
      if text_eq coin_type coin_btc
      then ok scan_meta_btc_bkt
      else if text_eq coin_type coin_sky
      then ok scan_meta_sky_bkt
      else err unsupported_coin_type
