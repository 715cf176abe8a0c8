-- ===== src/Lib.antt =====
-- A model of the InterCooperative Network (ICN), a network of federations, cooperatives and
-- communities that run jobs for each other. The parts that keep its accounts and decide who may
-- do what are modelled from the Rust code, one top-level module for each:
--
-- * Economics (crates/common/icn-economics/src/economics.rs, policy.rs): the ledger of used
--   resources and tokens. Economics/Key.antt is `LedgerKey`; Policy.antt `Economics::authorize`;
--   Ledger.antt `record`, `mint`, `transfer` and the totals. Transfer, Bounds, Reversal and Totals
--   prove what they do.
-- * Resources (crates/common/icn-economics/src/lib.rs, EconomicsError of
--   crates/common/icn-types/src/error.rs): tokens for resources and the policies that admit them.
--   Resources/Types.antt is the data; Repository.antt the trait `ResourceRepository` as a record of
--   operations; InMemory.antt the in-memory repository; Enforcer.antt `ResourcePolicyEnforcer` over
--   any repository. Quota and Serving prove what it grants over the in-memory one, and to a caller
--   that records what it uses.
-- * Mana (crates/common/icn-economics/src/mana.rs, the adapter of lib.rs,
--   crates/common/icn-types/src/mana.rs): Mana/Pool.antt is `ManaPool`; Manager.antt `ManaManager`;
--   State.antt the trait `ManaLedger` and the in-memory ledger; Regenerator.antt
--   `ManaRegenerator::tick` over any ledger; Adapter.antt `ManaRepositoryAdapter`, which makes a
--   ledger of mana a repository for the enforcer. Level, Safety, Transfer and Tick prove what they
--   do.
-- * Identity (crates/common/icn-identity/src): Identity/Scope.antt is scope_key.rs and
--   identity_index.rs, which say whose mana pool a DID uses; Quorum.antt is quorum.rs; Trust.antt
--   is trust_bundle.rs and trust_validator.rs. Signers, Weights, Verify and Addition prove what a
--   quorum accepts.
-- * Types (crates/common/icn-types/src): Types/QuorumConfig.antt is trust.rs and Validation.antt
--   proves what it decides, and how it and quorum.rs compare. Dag.antt is the nodes, their builder
--   and the in-memory store with its batches (dag/mod.rs, dag_store.rs), and DagLaws.antt proves
--   what they do. JobStatus.antt is the status of a job and its columns (jobs/mod.rs).
--   Reputation.antt is the profile of a node and the events that change it (reputation.rs), and
--   Standing.antt proves what a profile keeps.
-- * Runtime (crates/runtime): Runtime/Sections.antt is the stack of sections of a job
--   (icn-runtime/src/job_execution_context.rs), as a step relation over the calls that use it.
--   HostCalls.antt is the host functions of the virtual machine and the context they change
--   (icn-core-vm/src/lib.rs), and Metering.antt proves what they read and what is counted.
-- * Agoranet (crates/services/icn-agoranet/src/transfers.rs, and the types of models.rs it uses):
--   the ledger of balances of the community service. Agoranet/Ledger.antt has the balances and the
--   transfers, Query.antt the queries and Stats.antt the statistics; Balances, Batch, Minting,
--   Sorting and Answers prove what they do.
-- * Agoranet/Auth (auth.rs, auth/revocation.rs and auth_handlers.rs of the same crate): the tokens
--   of the community service. Access.antt has the tests of a token's claims, Revocation.antt the
--   trait and the in-memory store of revocations with its indices, Requests.antt the extractor of
--   a request, Issuance.antt and Handlers.antt the issuance, the revocation and the rotation.
--   Permission, Indices, Clearing, Histories, Forgetting, Laws, Refusals, Grants and Rotation prove
--   what they do; the theorems about requests and handlers hold for any store that has the laws
--   that Laws.antt proves of the one in memory.
-- * Agoranet/Forum (handlers.rs, models.rs and error.rs of the same crate): Voting.antt creates
--   threads and proposals and casts votes; Listing.antt is the queries, Authorized.antt those that
--   check a token, and Stats.antt the statistics. Tally, Counting, Elections, Scoped, Statistics and
--   TokenSums prove what they do, over the access tests of Auth.
-- * Ccl (crates/ccl: icn-ccl-dsl/src/lib.rs, icn-ccl-wasm-codegen/src, and the job parameters of
--   crates/common/icn-types/src/mesh.rs): the code generator of the contract language. Dsl.antt is
--   the syntax, Opcodes.antt and Generate.antt the lowering to opcodes (lib.rs), Emit.antt the
--   sections of the WebAssembly module (emit.rs). Brackets, Memory, Calls, Arguments, Compile and
--   Typing prove what they do.
--
-- Base and HashMap are shared. A `HashMap` is an association list whose order stands for the
-- order of iteration, which Rust leaves open. A state behind a lock (`RwLock`, `Mutex`) or `&mut
-- self` is an argument and a result, and each operation is one step: operations follow each other
-- in some order. That two tasks interleave within an operation, between the locks it takes, is
-- not modelled. `Result` is a data type and `?` its bind. A panic is `none` where one can happen.
--
-- Integers are natural numbers with the wrap-around of a release build written out: `wrap64`,
-- `wrap32` and `wrap16` after `+` and `*`, `sub64` for `-`, and the saturating operations as
-- such. A build with overflow checks panics where they wrap. Lengths (`usize`) are not wrapped,
-- since memory bounds them. Every reading of a clock is an argument, one for each reading. No
-- loop needs fuel: all are over lists.
--
-- Parameters stand for code of other libraries: the check of a signature (ed25519_dalek), the
-- writing of JSON and CBOR (serde_json, serde_cbor), the coding of a token (jsonwebtoken), the
-- parsing of a CID, the type of JSON values, the text of a `Uuid`, of a date and of a floating-point
-- number, `to_lowercase`, the type of a floating-point rate that is only stored, and the
-- floating-point operations of an average. The parsing of a DID is one too, and a DID is its text.
--
-- Not modelled: `pool_mut` of the mana manager, which hands out a reference; the sled and Postgres stores (storage), the websocket handlers and the transport
-- of HTTP, the peer-to-peer node, the WebAssembly engine, the parser of the contract language and
-- the lowering of its syntax tree, receipts, the score of a profile, the job service and the
-- command-line tools; and the counters kept for metrics, but for the hook of the mana manager,
-- whose reports are part of the state. handlers.rs has copies of the ledger of balances and of
-- the handlers of auth_handlers.rs, of which the latter ones are modelled.
pub mod Base
pub mod HashMap
pub mod Economics
pub mod Ccl
pub mod Resources
pub mod Identity
pub mod Mana
pub mod Agoranet
pub mod Types
pub mod Runtime
