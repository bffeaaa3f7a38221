-- ===== src/Scanner/Blocks/Waiting.antt =====
-- getNextBlock and waitForNextBlock (src/scanner/btc.go and sky.go): each turn of a loop asks the
-- node. chainhash.NewHashFromStr, of another project, is the test `is_hash`.
pub mod Found
use teller.Common.{
  ℕ, Bool, true, false, ◌||◌, Option, none, some, List, [], ◌∷◌, Text, is_empty, Result, ok, err,
  Error, ◌>>=◌, service_failed, next_hash_empty, scanner_quit, if◌then◌else◌,
}
use teller.Scanner.Types.{CommonBlock}
use teller.Scanner.Blocks.{BtcBlock, SkyBlock, btc_block_to_common, sky_block_to_common}

-- A turn: what the node answers, and whether the scanner quits in the wait that may follow.
pub record Turn (A : Type 0) : Type 0 where
  pub answer : Result A
  pub quit : Bool

-- A loop has returned a block or an error, or still runs after the turns.
pub data Waited : Type 0 where
  found : CommonBlock → Waited
  gave_up : Error → Waited
  waiting : Waited

abbrev pub again : Bool → Waited → Waited
again quit rest = if quit then gave_up scanner_quit else rest

module _ {F : Type 0} (new_amount : F → Option ℕ) (is_hash : Text → Bool) where
  unfoldable pub btc_next_block : CommonBlock → Result (BtcBlock F) → Result CommonBlock
  btc_next_block block answer =
      if is_empty block.next_hash
      then err next_hash_empty
      else if is_hash block.next_hash
      then answer >>= btc_block_to_common new_amount
      else err service_failed

  -- The second loop.
  unfoldable pub btc_wait_next : CommonBlock → List (Turn (BtcBlock F)) → Waited
  unfolding btc_next_block
  btc_wait_next block [] = waiting
  btc_wait_next block (t ∷ ts) =
      let rest = btc_wait_next block ts in
      elim (btc_next_block block t.answer) [ ok b ↦ found b | err e ↦ again t.quit rest ]

  after_hash : Result CommonBlock → List (Turn (BtcBlock F)) → Waited
  unfolding btc_wait_next
  after_hash (err e) ts = gave_up e
  after_hash (ok b) ts = btc_wait_next b ts

  -- The first loop: the block is asked for again until its NextHash is set.
  unfoldable pub btc_wait_hash : List (Turn (BtcBlock F)) → Waited
  unfolding after_hash
  btc_wait_hash [] = waiting
  btc_wait_hash (t ∷ ts) =
      let rest = btc_wait_hash ts in
      elim t.answer [
        | err e ↦ again t.quit rest
        | ok b ↦
            if is_empty b.next_hash
            then again t.quit rest
            else after_hash (btc_block_to_common new_amount b) ts
      ]

  unfoldable pub btc_wait_for_next_block : CommonBlock → List (Turn (BtcBlock F)) → Waited
  unfolding btc_wait_hash
  btc_wait_for_next_block block ts =
      if is_empty block.next_hash
      then (if is_hash block.hash then btc_wait_hash ts else gave_up service_failed)
      else btc_wait_next block ts

module _ (from_string : Text → Option ℕ) where
  -- The node is asked for the block behind `block`.
  unfoldable pub sky_wait_for_next_block : CommonBlock → List (Turn SkyBlock) → Waited
  sky_wait_for_next_block block [] = waiting
  sky_wait_for_next_block block (t ∷ ts) =
      let rest = sky_wait_for_next_block block ts in
      elim (t.answer >>= sky_block_to_common from_string) [
        | ok b ↦ found b
        | err e ↦ again t.quit rest
      ]
