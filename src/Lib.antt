-- ===== src/Lib.antt =====
-- The core of the Nightfall 4 rollup: the Merkle trees of its commitments and nullifiers, the client's
-- commitments and their selection, its requests from their queue to the proposers, the conversions to
-- Solidity's types, and the proposer's handling of transactions and blocks. Paths are those of the
-- repository.
--
-- Parts and files:
-- - Common, Field: lists, results, tests and a stable sort; the scalar field of BN254 as numbers below
--   its modulus, with sums that wrap.
-- - Trees/Types, Trees/Helpers: `lib/src/merkle_trees/trees.rs`, its types and `helper_functions`.
--   Trees/Root is the independent description of a Merkle root; Trees/Complete is
--   about `make_complete_tree`.
-- - Trees/AppendOnly: `lib/src/merkle_trees/append_only.rs`. Defs has the documents and the two
--   operations; Frontier, Walk, Blocks and Append relate the frontier to the leaves; Laws has the results.
-- - Trees/Mutable: `lib/src/merkle_trees/mutable.rs`. Store has the documents, nodes and cache, Defs the
--   operations that hash, Update the replaced sub trees and the insertions for the circuit. The tree is
--   seen as a function from places to leaves: Heap, Rows, Place and Append relate the written nodes to
--   it, Overlay the cache, Proofs the sibling paths, Leaf the query for a leaf. Laws, Insert, Membership, Circuit, Batch
--   and Agree have the results; Agree compares it with Trees/AppendOnly.
-- - Trees/Indexed: `lib/src/merkle_trees/indexed.rs`. Defs has the queries and updates of the collection
--   of leaves, Lookup and Chain the view of it as a linked list, Links and Laws the results. State and
--   Tree put it beside a mutable tree, with the creation, the proofs and `insert_leaves`; Circuit has the
--   insertions of nullifiers for the circuit, Membership the results on tree and leaves together. Growth
--   goes through the steps of the insertions, and Invariant through the insertions.
-- - Client/Entities: `nightfall_client/src/domain/entities.rs`.
-- - Client/Selection: `nightfall_client/src/services/commitment_selection.rs`; Pairs is about its two
--   pointers. Client/Commitments: the collection of commitments in
--   `nightfall_client/src/driven/db/mongo.rs`, and the functions of the selection that use it.
--   Client/Records: the requests, membership proofs and withdrawals of the same file.
-- - Client/Events: `nightfall_client/src/driven/event_handlers/nightfall_event.rs`, which joins the
--   commitments, the records, the mutable tree and the stored blocks in one state. Defs decodes a block
--   and finds our commitments, Handler has the handler in its steps, and what the listener of
--   `nightfall_client/src/drivers/blockchain/nightfall_event_listener.rs` does with its answer. Status has
--   the query of the synchronisation status in the file of the listener. Laws and Success have the
--   results.
-- - Client/Operations: the requests of users. State has the chain of calls on the client's state; Send the
--   sending to the proposers and Handlers the common part of transfers and withdrawals, of
--   `nightfall_client/src/drivers/rest/client_operation.rs`; Service is
--   `nightfall_client/src/services/client_operation.rs`; Requests has the handlers of
--   `nightfall_client/src/drivers/rest/client_nf_3.rs`, and Queue its `queue_request` with the queue of
--   `nightfall_client/src/driven/queue.rs`. The queue takes the handler as an argument, with the
--   interface `IsLocalHandler`; Keeps goes through the handlers once, for any relation that their single
--   writes respect, of which Local and Locked are instances. Drain, Order, Locks, Conserved and
--   Attempts have the other results.
-- - Conversions: `nightfall_client/src/driven/contract_functions/contract_type_conversions.rs`.
-- - Proposer/Sync: `process_propose_block_event` of `nightfall_proposer/src/driven/nightfall_event.rs`
--   and the stored blocks of `nightfall_proposer/src/driven/db/mongo_db.rs`. The transactions are converted by
--   `nightfall_proposer/src/driven/block_assembler.rs`, as field elements with the words of Conversions.
--   The handler takes the trees as the interface `TreeOps`, whose writes may fail half done; Steps and Checks give its outcomes, Laws and Repeat the results.
-- - Proposer/Assembly: `assemble_block`, `prepare_block_data` and `make_block` of
--   `nightfall_proposer/src/services/assemble_block.rs`, over the mempool of `mongo_db.rs`, which also
--   holds the stored blocks that Proposer/Sync writes. Mempool, Defs, Block and Assemble have the
--   operations, Groups, Selected, Laws and Lost the results.
-- - Proposer/Transactions: `nightfall_proposer/src/driven/nightfall_client_transaction.rs`, which takes
--   transactions and deposits into the mempool, over the trees of Trees/Indexed and Trees/Mutable, and
--   `process_deposit_escrowed_event` of `nightfall_proposer/src/driven/nightfall_event.rs`. Defs has the
--   transactions with the check of their proof, Deposits the deposits; Pending is about the search of the
--   mempool, and Admitted and Repeat have the results.
-- - Tests: instances of the results at concrete inputs.
--
-- Parameters: the Poseidon hash of two nodes (`hasher`, with `hasher 0 0 ≡ 0` where the results need
-- it, since the source takes zero for every empty node), of three elements (`hash₃`) and of a list,
-- where a `none` is an error; the default point of the curve library and the default entry of its
-- indexed tree; the decryption of secrets, the text of a field element and the hash of a block;
-- the prover of the block assembly; what the handlers read of the chain. The record `Setting` has what the
-- handlers of requests use: keys, settings, the curve, the prover and the check of a membership proof, the
-- contracts and the answers of the proposers. The fields of a request are the results of their conversions.
-- The record `Verifier` has the library's part in the check of a client's proof.
-- MongoDB collections are lists of documents in the order of insertion; their calls succeed, except
-- for duplicate keys and where a definition says so.
--
-- Fuel: `get_frontier_index` runs on the index of its leaf, and each round takes one of its trailing
-- bits; the chunks of a batch and the two pointers run on the length of their list, and every round
-- takes at least one element from it; `is_power_of_two` and `ilog2` run on the number itself, which
-- each round halves; the attempts to send run on the number of attempts allowed; the digits of a field
-- element run on the four that a word has. Sums and powers of
-- machine integers are written without a bound, for trees whose leaves can be counted in them; the
-- power in the backoff of the attempts wraps as a `u32`, and durations have no bound.
--
-- Not modelled: circuits and provers, HTTP and blockchain drivers, configuration, contracts, key
-- encapsulation, the notification of the client's webhook, the JSON of replies, and the messages of the log,
-- but for the panic in one of them, in Trees/Mutable/Defs, which the level of the log decides.
pub mod Common
pub mod Field
pub mod Trees
pub mod Client
pub mod Conversions
pub mod Proposer
pub mod Tests
