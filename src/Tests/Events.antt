-- ===== src/Tests/Events.antt =====
-- The client's handler of proposed blocks at a concrete block of one transaction.
use Prim.Native.String.{String}
use nightfall_4_ce.Common.{ℕ, ◌+◌, ◌*◌, ◌≢◌, List, [], ◌∷◌, Option, some}
use nightfall_4_ce.Field.{Fr254}
use nightfall_4_ce.Conversions.Defs.{Words}
use nightfall_4_ce.Client.Entities.Defs.{Point, CompressedSecrets}
use nightfall_4_ce.Client.Events.Defs.{
  BlockTransaction, OnChainBlock, ChainView, ClientState, DecodedTransaction, Decrypted,
}
use nightfall_4_ce.Client.Events.Handler.{
  propose_block, block_proposed, handle_event, restarts, after_event,
}
use nightfall_4_ce.Client.Events.Laws.{handle_event-restarts}
use nightfall_4_ce.Proposer.Sync.Store.{StoredBlock}
use nightfall_4_ce.Trees.Types.{TreeMetadata}

abbrev hasher : ℕ → ℕ → ℕ
hasher a b = a + 2 * b

abbrev block_hash : StoredBlock → Fr254
block_hash b = b.proposer_address

abbrev to_hex : Fr254 → String
to_hex f = "c"

abbrev hash : List Fr254 → Option Fr254
hash fs = some 11

abbrev decrypt : CompressedSecrets → Option Decrypted
decrypt c = some (record { token_id = 1; slot_id = 2; value = 3; salt = 4 })

abbrev key : Point
key = record { x = 0; y = 1 }

abbrev words : Words
words = record { word_0 = 0; word_1 = 0; word_2 = 0; word_3 = 0 }

-- A deposit: two commitments, and no nullifiers.
abbrev deposit : BlockTransaction
deposit = record {
  fee = 0;
  commitments = 9 ∷ 8 ∷ 0 ∷ 0 ∷ [];
  nullifiers = 0 ∷ 0 ∷ 0 ∷ 0 ∷ [];
  public_data = words;
}

abbrev decoded : DecodedTransaction
decoded = record {
  commitments = 9 ∷ 8 ∷ 0 ∷ 0 ∷ [];
  nullifiers = 0 ∷ 0 ∷ 0 ∷ 0 ∷ [];
  secrets = record { secret_0 = 0; secret_1 = 0; secret_2 = 0; secret_3 = 0; secret_4 = 0 };
}

abbrev block : OnChainBlock
block = record { commitments_root = 0; transactions = deposit ∷ [] }

abbrev chain : ChainView
chain = record { proposer_address = some 77; current_block = some 1 }

abbrev meta : TreeMetadata
meta = record { tree_height = 2; sub_tree_height = 2; sub_tree_count = 0; root = 0 }

abbrev start : ClientState
start = record {
  expected = 0;
  blocks = [];
  tree = record { metadata = some meta; nodes = []; cache = [] };
  entries = [];
  requests = [];
  mappings = [];
}

handle_event-restarts_example :
    after_event
      (handle_event hasher block_hash to_hex hash decrypt key 5 chain
        (some 33)
        (λ h. propose_block block)
        (block_proposed 4)
        start).0
    ≢ restarts
handle_event-restarts_example =
    handle_event-restarts hasher block_hash to_hex hash decrypt key 5 chain (some 33)
      (λ h. propose_block block) (block_proposed 4) start
