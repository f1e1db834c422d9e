-- ===== src/Lib.antt =====
-- A model of the parts of Hyperledger Fabric 1.0 that decide which transactions take effect: the
-- ordering service's cutting of messages into blocks, and a peer's validation of a block against the
-- versions of its state.
--
-- The parts and their files:
-- - Codec: common/ledger/util/util.go, the order-preserving encoding of uint64. BigEndian has the
--   eight bytes of a number, RoundTrip and Order the laws.
-- - Version: core/ledger/kvledger/txmgmt/version/version.go, the height (block and index) of a
--   transaction, its comparison and its serialized form, which is two of these encodings.
-- - StateDb: core/ledger/kvledger/txmgmt/statedb/statedb.go. `UpdateBatch` is the batch of a block's
--   updates, an association list of namespaces to association lists of keys; `NsIterator` is the
--   iterator over a range of it, over the keys sorted by core/ledger/util/util.go. VersionedDb is the
--   interface of the database as a record of operations, with the contract `Serves`. Scan says what an
--   iterator over a range is to yield.
-- - LevelDb: the state database over LevelDB. Store is the parameter for github.com/syndtr/goleveldb
--   with its contract `Holds`, Prefix the keys of one name in a store, Handle
--   common/ledger/util/leveldbhelper/leveldb_provider.go, Values statedb/util.go, and Versioned
--   statedb/stateleveldb/stateleveldb.go with its Reads and Updates.
-- - RwSet: the read-write set of a transaction (core/ledger/kvledger/txmgmt/rwsetutil and
--   protos/ledger/rwset/kvrwset). RwSet.QueryResults is query_results_helper.go with its Merkle tree,
--   RwSet.Builder is rwset_builder.go.
-- - Simulator: core/ledger/kvledger/txmgmt/txmgr/lockbasedtxmgr (helper.go,
--   lockbased_tx_simulator.go),
--   the simulation of a transaction. Scans and Queries are about its iterators and the range queries
--   that they record, Calls and Runs about sequences of calls, Finished about a finished simulation.
-- - TxMgr: lockbased_txmgr.go of the same folder, the validation and commit of a block over
--   LevelDb, with
--   Commits about a block that is committed.
-- - Validator: core/ledger/kvledger/txmgmt/validator/statebasedval. Combined is the iterator over the
--   database with the batch laid over it (combined_iterator.go), RangeQuery the validation of a range
--   query (range_query_validator.go), Mvcc the validation of a transaction and Block that of a block
--   (state_based_validator.go, with the flags of core/ledger/util/txvalidationflags.go).
-- - Orderer: orderer/common. Filter has the rules that a message passes (filter/filter.go,
--   sizefilter/sizefilter.go), Cutter the block cutter (blockcutter/blockcutter.go),
--   Solo the consenter of one process (orderer/solo/consensus.go), whose main loop is a step relation.
-- - ConfigTx: common/configtx. The messages and their comparison (compare.go), Names for the names of
--   elements and channels, ConfigMap for the map of paths (configmap.go) with its Termination, Update
--   for the authorization of an update (update.go) and Update.Authorized for what it may change.
-- - Policies: ImplicitMeta is common/policies/implicitmeta.go. Signature is common/cauthdsl, the
--   compiling and evaluating of a signature policy,
--   and Signature.Marks how many signatures a satisfied one has used.
-- - Gossip: MessageStore is gossip/gossip/msgstore/msgs.go, and MessageStore.Compatible what its calls
--   leave. PayloadsBuffer is gossip/state/payloads_buffer.go, the buffer that puts received blocks
--   in order; its child
--   modules run sequences of calls.
-- - Assets: imocc/chaincode/assetsExchange, the repository's own chaincode. Shim is what it uses of
--   core/chaincode/shim/chaincode.go, a call that collects writes, with the composite keys; Composite
--   is about those keys and Transfer about the change of an owner.
-- - Prelude: shared types, tests and lemmas. Examples: concrete runs.
--
-- How they interact: a validated block reads the database through `VersionedDb` and the updates of
-- its earlier transactions through `UpdateBatch`; a range query runs the combined iterator over both
-- and compares what it delivers with what the transaction recorded. The heights that the versions
-- hold are those that `Version` compares and serializes.
--
-- Conventions: numbers are the native naturals, and the wrap of uint8, uint32 and uint64 is written
-- out. A byte string or a Go string is a list of numbers; a nil slice, where the code tests for it, is
-- `none`. A Go map is an association list with one entry for each key. `Outcome` is a value, an error
-- or a panic.
--
-- Fuel: the recursion of `combinedIterator.Next` over deleted keys and the loops over an iterator take
-- fuel, and panic when it ends; the recursion of `recurseConfigMap` takes fuel, and is `none` when
-- it ends. The theorems about them give a bound above which every fuel is enough.
--
-- Parameters: the varint of github.com/golang/protobuf (`Varint`, with its behaviour below 128), the
-- hashing and serializing of range query results (`Hasher`), the decoding of envelopes and of
-- read-write sets (`Decoder`), the database (`VersionedDb`, which LevelDb implements), LevelDB
-- (`LevelStore`), the committers of messages, for the chaincode the handler of the shim (`Stub`), the
-- strings of Go (`Unicode`) and JSON (`Json`), for policies the membership service
-- (`IdentityDeserializer`), and for configurations the managers of policies (`PolicyManager`) and the
-- decoding of messages (`Messages`).
--
-- Not modelled: logging, locks and closing of iterators, CouchDB, block storage, the
-- templates of channel configurations, the rest of gossip and of the shim, membership, cryptography and the
-- servers, which are network, storage and process plumbing around the parts above.
pub mod Assets
pub mod Codec
pub mod ConfigTx
pub mod Examples
pub mod Gossip
pub mod LevelDb
pub mod Orderer
pub mod Policies
pub mod Prelude
pub mod RwSet
pub mod Simulator
pub mod StateDb
pub mod TxMgr
pub mod Validator
pub mod Version
