-- ===== src/Tests/Services.antt =====
-- A request for a deposit address at the teller service.
use teller.Common.{
  ◌≡◌, refl, inl, inr, arith, subst, Bool-cases, some, List, [], ◌∷◌, Text, text_eq, ok, true,
}
use teller.Dbutil.{get_bucket_object, put_bucket_value, bucket_has_key}
use teller.Db.{Db}
use teller.Db.Access.{get_object, find_object, put_object, has_key, update, read_only}
use teller.Db.Buckets.{get_scan_meta_bkt, get_bind_address_bkt, used_btc_address_bkt}
use teller.Scanner.Types.{coin_btc}
use teller.Scanner.Store.{listed, get_scan_addresses_tx, add_scan_address_tx, add_scan_address}
use teller.Addrs.{
  Generator, AddrManager, generator, set_pool, put_with_tx, put, is_used, choose, chosen,
  new_address, manager_new_address,
}
use teller.Addrs.Pool.{IsField}
use teller.Exchange.Store.{get_bind_address_tx, bind_in, bind_address}
use teller.Exchange.Store.Queries.{get_kitty_bind_address}
use teller.Exchange.Facade.{is_bound}
use teller.Exchange.Receive.{validate_coin_type, multiplexer_add_scan_address, receive_bind_address}
use teller.Teller.Service.{may_bind, bind_new, service_bind_address}
use teller.Teller.Service.Serving.{AreFields, Served, service_bind_address-Served}
use teller.Tests.Memory.{memory}
use teller.Tests.Exchanges.{table, addr, kitty, bound, unwatched_db, watched_db}

abbrev pub manager : List Text → AddrManager
manager pool = (coin_btc, record { bkt = used_btc_address_bkt; pool = pool }) ∷ []

abbrev pub free_db : Db
free_db = record unwatched_db {
  used_btc_address = some (table []);
  kitty_deposit_seqs = some (table []);
}

abbrev served_db : Db
served_db = record watched_db {
  used_btc_address = some (table ((addr, []) ∷ []));
  kitty_deposit_seqs = some (table []);
}

serve :
    service_bind_address true (coin_btc ∷ []) (manager (addr ∷ [])) kitty coin_btc free_db
    ≡ (ok bound, manager [], served_db)
unfolding service_bind_address may_bind bind_new is_bound get_kitty_bind_address get_object
    read_only manager_new_address generator set_pool new_address chosen choose is_used put
    put_with_tx has_key bucket_has_key receive_bind_address validate_coin_type
    multiplexer_add_scan_address listed bind_address bind_in get_bind_address_tx
    get_bind_address_bkt add_scan_address add_scan_address_tx get_scan_addresses_tx
    get_scan_meta_bkt find_object get_bucket_object put_object put_bucket_value update text_eq
serve = refl

fields : AreFields (manager (addr ∷ []))
unfolding generator
fields c g h = elim (Bool-cases (text_eq coin_btc c)) [
  | inl same ↦
      let it : record { bkt = used_btc_address_bkt; pool = addr ∷ [] } ≡ g = ground arith in
      subst (λ (x : Generator). IsField x.bkt) it (λ db t. refl)
  | inr other ↦ absurd (ground arith)
]

service_bind_address-Served_example :
    Served true
      (coin_btc ∷ [])
      (manager (addr ∷ []))
      kitty
      coin_btc
      free_db
      bound
      (manager [])
      served_db
service_bind_address-Served_example =
    service_bind_address-Served true (coin_btc ∷ []) (manager (addr ∷ [])) kitty coin_btc free_db
      fields serve
