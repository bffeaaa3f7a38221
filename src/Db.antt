-- ===== src/Db.antt =====
-- The database file: the buckets that the packages keep in it. A bucket that is not there is
-- `none`. A `Field` is a bucket's name: where to find it and how to write it back.
pub mod Buckets
pub mod Access
pub mod Laws
use teller.Common.{Option, none, List, Text}
use teller.Bolt.{Bolt}
use teller.Scanner.Types.{Deposit}
use teller.Exchange.Types.{BoundAddress, DepositInfo, DepositTrack}
use teller.Agent.Types.{Reservation, User}

module _ ⦃b : Bolt⦄ where
  pub record Db : Type 0 where
    pub deposit_info : Option (b.Bucket DepositInfo)
    pub deposit_txs : Option (b.Bucket (List Text))
    pub bind_address_btc : Option (b.Bucket BoundAddress)
    pub bind_address_sky : Option (b.Bucket BoundAddress)
    pub kitty_deposit_seqs : Option (b.Bucket BoundAddress)
    pub deposit_track : Option (b.Bucket DepositTrack)
    pub deposit_value : Option (b.Bucket Deposit)
    pub scan_meta_btc : Option (b.Bucket (List Text))
    pub scan_meta_sky : Option (b.Bucket (List Text))
    pub reservations_kitty : Option (b.Bucket Reservation)
    pub users : Option (b.Bucket User)
    pub kitty_owner : Option (b.Bucket Text)
    pub used_btc_address : Option (b.Bucket Text)
    pub used_sky_address : Option (b.Bucket Text)

  -- A file that bolt.Open has just made.
  abbrev pub empty_db : Db
  empty_db = record {
    deposit_info = none;
    deposit_txs = none;
    bind_address_btc = none;
    bind_address_sky = none;
    kitty_deposit_seqs = none;
    deposit_track = none;
    deposit_value = none;
    scan_meta_btc = none;
    scan_meta_sky = none;
    reservations_kitty = none;
    users = none;
    kitty_owner = none;
    used_btc_address = none;
    used_sky_address = none;
  }

  pub record Field (V : Type 0) : Type 0 where
    pub read : Db → Option (b.Bucket V)
    pub write : Db → b.Bucket V → Db
