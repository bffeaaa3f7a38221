-- ===== src/Scanner/Blocks.antt =====
-- Blocks of the coins' nodes as common blocks (src/scanner/btc.go and sky.go), with the fields of a
-- node's block that the code reads. The amounts of the nodes are read by other projects' packages:
-- btcutil.NewAmount is `new_amount` and droplet.FromString is `from_string`, `none` is their error.
pub mod Waiting
pub mod Numbering
use teller.Common.{
  ℕ, ◌+◌, ◌%◌, ◌==◌, Bool, Option, none, some, List, [], ◌∷◌, Text, is_empty, Result, ok, err,
  Error, ◌>>=◌, service_failed, txindex_disabled, next_hash_empty, u64_mod, if◌then◌else◌,
}
use teller.Scanner.Types.{CommonVout, CommonTx, CommonBlock}

-- btcjson.GetBlockVerboseResult; an amount is a float64.
pub record BtcVout (F : Type 0) : Type 0 where
  pub value : F
  pub addresses : List Text

pub record BtcTx (F : Type 0) : Type 0 where
  pub txid : Text
  pub vout : List (BtcVout F)

pub record BtcBlock (F : Type 0) : Type 0 where
  pub hash : Text
  pub next_hash : Text
  pub height : ℕ
  pub raw_tx : List (BtcTx F)

-- visor.ReadableBlock; an amount is a text.
pub record SkyOut : Type 0 where
  pub coins : Text
  pub address : Text

pub record SkyTx : Type 0 where
  pub hash : Text
  pub out : List SkyOut

pub record SkyBlock : Type 0 where
  pub block_hash : Text
  pub bk_seq : ℕ  -- uint64
  pub transactions : List SkyTx

-- The output has no number of its own: cv.N stays 0.
abbrev pub vout_of : Option ℕ → List Text → Result CommonVout
vout_of none addresses = err service_failed
vout_of (some amt) addresses = ok (record { value = amt; n = 0; addresses = addresses })

module _ {F : Type 0} (new_amount : F → Option ℕ) where
  unfoldable pub btc_vouts : List (BtcVout F) → Result (List CommonVout)
  btc_vouts [] = ok []
  btc_vouts (v ∷ vs) = do
    cv ← vout_of (new_amount v.value) v.addresses
    cvs ← btc_vouts vs
    ok (cv ∷ cvs)

  unfoldable pub btc_txs : List (BtcTx F) → Result (List CommonTx)
  unfolding btc_vouts
  btc_txs [] = ok []
  btc_txs (t ∷ ts) = do
    vouts ← btc_vouts t.vout
    cts ← btc_txs ts
    ok (record { txid = t.txid; vout = vouts } ∷ cts)

  -- btcBlock2CommonBlock
  unfoldable pub btc_block_to_common : BtcBlock F → Result CommonBlock
  unfolding btc_txs
  btc_block_to_common block = elim block.raw_tx [
    | [] ↦ err txindex_disabled
    | t ∷ ts ↦ do
      cts ← btc_txs (t ∷ ts)
      ok (record {
        height = block.height;
        hash = block.hash;
        next_hash = block.next_hash;
        raw_tx = cts;
      })
  ]

  -- getBlockAtHeight of the btc scanner, of what GetBlockHash and GetBlockVerboseTx answer
  unfoldable pub btc_block_at_height :
      Result Text → (Text → Result (BtcBlock F)) → Result CommonBlock
  btc_block_at_height hash block_of = do h ← hash; block ← block_of h; btc_block_to_common block

module _ (from_string : Text → Option ℕ) where
  unfoldable pub sky_vouts : List SkyOut → Result (List CommonVout)
  sky_vouts [] = ok []
  sky_vouts (v ∷ vs) = do
    cv ← vout_of (from_string v.coins) (v.address ∷ [])
    cvs ← sky_vouts vs
    ok (cv ∷ cvs)

  unfoldable pub sky_txs : List SkyTx → Result (List CommonTx)
  unfolding sky_vouts
  sky_txs [] = ok []
  sky_txs (t ∷ ts) = do
    vouts ← sky_vouts t.out
    cts ← sky_txs ts
    ok (record { txid = t.hash; vout = vouts } ∷ cts)

  -- skyBlock2CommonBlock; a block of the sky node has no next hash.
  unfoldable pub sky_block_to_common : SkyBlock → Result CommonBlock
  unfolding sky_txs
  sky_block_to_common block = do
    cts ← sky_txs block.transactions
    ok (record { height = block.bk_seq; hash = block.block_hash; next_hash = []; raw_tx = cts })

  -- getBlockAtHeight of the sky scanner
  unfoldable pub sky_block_at_height : Result SkyBlock → Result CommonBlock
  sky_block_at_height answer = do block ← answer; sky_block_to_common block

-- GetBlockCount of the sky client: the number of the last block, and one.
unfoldable pub sky_block_count : ℕ → ℕ
sky_block_count last_seq = (last_seq + 1) % u64_mod
