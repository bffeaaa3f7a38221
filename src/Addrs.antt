-- ===== src/Addrs.antt =====
-- The addrs package (src/addrs): a pool of deposit addresses for each coin type, and the bucket of
-- those that were handed out. `bkt` is the pool's BucketKey.
pub mod Files
pub mod Pool
pub mod Calls
use teller.Common.{
  ℕ, Bool, true, false, Option, none, some, List, [], ◌∷◌, Text, text_eq, is_empty, length, Result,
  ok, err, Error, wrapped, if◌then◌else◌, deposit_address_empty, coin_type_not_registered,
  coin_type_exists,
}
use teller.Common.Txs.{Tx}
use teller.Bolt.{Bolt}
use teller.Db.{Db, Field}
use teller.Db.Access.{put_object, has_key, create_bucket, update, read_only}

module _ ⦃b : Bolt⦄ where
  -- src/addrs/store.go
  unfoldable pub new_store : Field Text → Db → Result (Unit {0}) × Db
  new_store bkt = update (create_bucket bkt)

  unfoldable pub put_with_tx : Field Text → Text → Tx Db (Unit {0})
  put_with_tx bkt addr = put_object bkt addr []

  unfoldable pub put : Field Text → Text → Db → Result (Unit {0}) × Db
  unfolding put_with_tx
  put bkt addr = update (put_with_tx bkt addr)

  unfoldable pub is_used : Field Text → Text → Db → Result Bool
  is_used bkt addr = read_only (has_key bkt addr)

  -- src/addrs/addrs.go
  unfoldable pub remove_used_addresses : Field Text → List Text → Db → Result (List Text)
  remove_used_addresses bkt [] db = ok []
  remove_used_addresses bkt (a ∷ l) db = elim (is_used bkt a db) [
    | err e ↦ err e
    | ok used ↦ elim (remove_used_addresses bkt l db) [
      | err e ↦ err e
      | ok rest ↦ ok (if used then rest else a ∷ rest)
    ]
  ]

  -- NewAddrs; the pool is what it returns.
  after_store : Field Text → List Text → Result (Unit {0}) → Db → Result (List Text)
  after_store bkt addresses (err e) db = err e
  after_store bkt addresses (ok u) db = remove_used_addresses bkt addresses db

  unfoldable pub new_addrs : Field Text → List Text → Db → Result (List Text) × Db
  unfolding after_store
  new_addrs bkt addresses db =
      let (r, db') = new_store bkt db in (after_store bkt addresses r db', db')

  -- The search loop of NewAddress: the first address that is not used, and those behind it.
  unfoldable pub choose : Field Text → Db → List Text → Result (Option (Text × List Text))
  choose bkt db [] = ok none
  choose bkt db (a ∷ l) = elim (is_used bkt a db) [
    | err e ↦ err e
    | ok true ↦ choose bkt db l
    | ok false ↦ ok (some (a, l))
  ]

  -- What follows the search: `chosenAddr == ""` stands for "none found".
  unfoldable pub chosen : Result (Option (Text × List Text)) → Result (Text × List Text)
  chosen (err e) = err e
  chosen (ok none) = err deposit_address_empty
  chosen (ok (some (a, l))) = if is_empty a then err deposit_address_empty else ok (a, l)

  -- NewAddress: the address or an error, the pool, and the database.
  unfoldable pub taken :
      List Text → Text → List Text → Result (Unit {0}) × Db → Result Text × List Text × Db
  taken pool a l (err e, db) = (err (wrapped e), pool, db)
  taken pool a l (ok u, db) = (ok a, l, db)

  unfoldable pub new_address : Field Text → List Text → Db → Result Text × List Text × Db
  unfolding taken
  new_address bkt pool db = elim (chosen (choose bkt db pool)) [
    | err e ↦ (err e, pool, db)
    | ok (a, l) ↦ taken pool a l (put bkt a db)
  ]

  -- NewAddressWithTx: `committed` is the database that other transactions see, which is what IsUsed
  -- opens, and `tx` the state inside the caller's transaction. The pool loses the address at once.
  taken_with_tx :
      List Text → Text → List Text → Db → Result (Unit {0} × Db) → Result Text × List Text × Db
  taken_with_tx pool a l tx (err e) = (err (wrapped e), pool, tx)
  taken_with_tx pool a l tx (ok (u, tx')) = (ok a, l, tx')

  unfoldable pub new_address_with_tx :
      Field Text → List Text → Db → Db → Result Text × List Text × Db
  unfolding taken_with_tx
  new_address_with_tx bkt pool committed tx = elim (chosen (choose bkt committed pool)) [
    | err e ↦ (err e, pool, tx)
    | ok (a, l) ↦ taken_with_tx pool a l tx (put_with_tx bkt a tx)
  ]

  unfoldable pub remaining : List Text → ℕ
  remaining pool = length pool

  -- AddrManager: the generators under their coin types. `none` in place of a pool's new value means
  -- that no pool has changed.
  pub record Generator : Type 0 where
    pub bkt : Field Text
    pub pool : List Text

  abbrev pub AddrManager : Type 0
  AddrManager = List (Text × Generator)

  unfoldable pub generator : Text → AddrManager → Option Generator
  generator coin_type [] = none
  generator coin_type ((c, g) ∷ am) = if text_eq c coin_type then some g else generator coin_type am

  unfoldable pub push_generator : Generator → Text → AddrManager → Result (Unit {0}) × AddrManager
  push_generator g coin_type am = elim (generator coin_type am) [
    | some old ↦ (err coin_type_exists, am)
    | none ↦ (ok tt, (coin_type, g) ∷ am)
  ]

  unfoldable pub set_pool : Text → List Text → AddrManager → AddrManager
  set_pool coin_type l [] = []
  set_pool coin_type l ((c, g) ∷ am) =
      if text_eq c coin_type
      then (c, record g { pool = l }) ∷ am
      else (c, g) ∷ set_pool coin_type l am

  unfoldable pub manager_new_address_with_tx :
      AddrManager → Text → Db → Db → Result Text × AddrManager × Db
  manager_new_address_with_tx am coin_type committed tx = elim (generator coin_type am) [
    | none ↦ (err coin_type_not_registered, am, tx)
    | some g ↦
        let (r, l, tx') = new_address_with_tx g.bkt g.pool committed tx in
        (r, set_pool coin_type l am, tx')
  ]

  unfoldable pub manager_new_address : AddrManager → Text → Db → Result Text × AddrManager × Db
  manager_new_address am coin_type db = elim (generator coin_type am) [
    | none ↦ (err coin_type_not_registered, am, db)
    | some g ↦ let (r, l, db') = new_address g.bkt g.pool db in (r, set_pool coin_type l am, db')
  ]

  unfoldable pub manager_remaining : AddrManager → Text → Result ℕ
  manager_remaining am coin_type = elim (generator coin_type am) [
    | none ↦ err coin_type_not_registered
    | some g ↦ ok (remaining g.pool)
  ]
