-- ===== src/Scanner/Blocks/Waiting/Found.antt =====
-- How the loops of waitForNextBlock (src/scanner/btc.go and sky.go) end.
use teller.Common.{
  ℕ, ◌≡◌, ◌⊎◌, ap, ◌∙◌, arith, Bool, true, false, Option, List, [], ◌∷◌, ◌++◌, Text, is_empty, ok,
  err, Error, ◌>>=◌, All,
}
use teller.Scanner.Types.{CommonBlock}
use teller.Scanner.Blocks.{BtcBlock, SkyBlock, btc_block_to_common, sky_block_to_common}
use teller.Scanner.Blocks.Waiting.{
  Turn, found, btc_next_block, btc_wait_next, after_hash, btc_wait_hash, btc_wait_for_next_block,
  sky_wait_for_next_block,
}

module _ {F : Type 0} (new_amount : F → Option ℕ) (is_hash : Text → Bool) where
  -- A turn after which the first loop asks again: an error of the node, or still no next hash.
  abbrev pub NoHash : Turn (BtcBlock F) → Type 0
  NoHash t =
      (t.quit ≡ false)
      × (((e : Error) × (t.answer ≡ err e))
          ⊎ ((b : BtcBlock F) × (t.answer ≡ ok b) × (is_empty b.next_hash ≡ true)))

  -- A turn after which the second loop asks again.
  abbrev pub NoBlock : Turn (BtcBlock F) → Type 0
  NoBlock t =
      (t.quit ≡ false) × ((e : Error) × ((t.answer >>= btc_block_to_common new_amount) ≡ err e))

  btc_wait_next_found :
      (block next : CommonBlock) (early : List (Turn (BtcBlock F))) (t : Turn (BtcBlock F))
      (later : List (Turn (BtcBlock F)))
      → is_empty block.next_hash ≡ false
      → is_hash block.next_hash ≡ true
      → All NoBlock early
      → (t.answer >>= btc_block_to_common new_amount) ≡ ok next
      → btc_wait_next new_amount is_hash block (early ++ (t ∷ later)) ≡ found next
  unfolding btc_wait_next btc_next_block
  btc_wait_next_found block next [] t later named hash none_yet good = ground arith
  btc_wait_next_found block next (s ∷ early) t later named hash none_yet good =
      ground (arith, btc_wait_next_found block next early t later named hash none_yet.1 good)

  btc_wait_hash_found :
      (btc : BtcBlock F) (block next : CommonBlock) (early : List (Turn (BtcBlock F)))
      (s : Turn (BtcBlock F)) (more : List (Turn (BtcBlock F))) (t : Turn (BtcBlock F))
      (later : List (Turn (BtcBlock F)))
      → All NoHash early
      → s.answer ≡ ok btc
      → is_empty btc.next_hash ≡ false
      → btc_block_to_common new_amount btc ≡ ok block
      → btc_wait_next new_amount is_hash block (more ++ (t ∷ later)) ≡ found next
      → btc_wait_hash new_amount is_hash (early ++ (s ∷ (more ++ (t ∷ later)))) ≡ found next
  unfolding btc_wait_hash after_hash
  btc_wait_hash_found btc block next [] s more t later none_yet answer named conv rest =
      ground arith
  btc_wait_hash_found btc block next (u ∷ early) s more t later none_yet answer named conv rest =
      ground (
        arith,
        btc_wait_hash_found btc block next early s more t later none_yet.1 answer named conv rest,
      )

  btc_block_to_common-next_hash :
      (btc : BtcBlock F) {block : CommonBlock}
      → btc_block_to_common new_amount btc ≡ ok block
      → block.next_hash ≡ btc.next_hash
  unfolding btc_block_to_common
  btc_block_to_common-next_hash btc h = ground arith

  -- waitForNextBlock of the btc scanner, called with a block without a next hash whose hash is
  -- one, after any number of turns in which the node fails or its block has no next hash yet, a
  -- turn with a block that has one and is converted, any number of turns in which the next block
  -- cannot be read, and no wish to quit in any of them, returns the next block in the first turn
  -- in which it is read and converted.
  pub btc_wait_for_next_block_found :
      (start : CommonBlock) (btc : BtcBlock F) (block next : CommonBlock)
      (early : List (Turn (BtcBlock F))) (s : Turn (BtcBlock F)) (more : List (Turn (BtcBlock F)))
      (t : Turn (BtcBlock F)) (later : List (Turn (BtcBlock F)))
      → is_empty start.next_hash ≡ true
      → is_hash start.hash ≡ true
      → All NoHash early
      → s.answer ≡ ok btc
      → is_empty btc.next_hash ≡ false
      → is_hash btc.next_hash ≡ true
      → btc_block_to_common new_amount btc ≡ ok block
      → All NoBlock more
      → (t.answer >>= btc_block_to_common new_amount) ≡ ok next
      → btc_wait_for_next_block new_amount is_hash start (early ++ (s ∷ (more ++ (t ∷ later))))
        ≡ found next
  unfolding btc_wait_for_next_block
  btc_wait_for_next_block_found start btc block next early s more t later unnamed hash none_yet
        answer named named_hash conv no_block good =
      let same = btc_block_to_common-next_hash btc conv in
      let second =
        btc_wait_next_found block next more t later (ap is_empty same ∙ named)
          (ap is_hash same ∙ named_hash) no_block good in
      ground (
        arith,
        btc_wait_hash_found btc block next early s more t later none_yet answer named conv second,
      )

-- Without a next hash the loops of the sky scanner have one: it asks for the block at height + 1.
module _ (from_string : Text → Option ℕ) where
  abbrev pub NoSkyBlock : Turn SkyBlock → Type 0
  NoSkyBlock t =
      (t.quit ≡ false) × ((e : Error) × ((t.answer >>= sky_block_to_common from_string) ≡ err e))

  pub sky_wait_for_next_block_found :
      (block next : CommonBlock) (early : List (Turn SkyBlock)) (t : Turn SkyBlock)
      (later : List (Turn SkyBlock))
      → All NoSkyBlock early
      → (t.answer >>= sky_block_to_common from_string) ≡ ok next
      → sky_wait_for_next_block from_string block (early ++ (t ∷ later)) ≡ found next
  unfolding sky_wait_for_next_block
  sky_wait_for_next_block_found block next [] t later none_yet good = ground arith
  sky_wait_for_next_block_found block next (s ∷ early) t later none_yet good =
      ground (arith, sky_wait_for_next_block_found block next early t later none_yet.1 good)
