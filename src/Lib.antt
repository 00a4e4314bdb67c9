-- ===== src/Lib.antt =====
-- core-eng: threshold signing (FROST) of sBTC operations, and the coordinator that turns peg
-- requests into signed transactions. The signer's REST API keeps transactions and the votes on them.
--
-- The parts and how they interact. A frost-coordinator sends requests to frost-signers over a
-- relay-server, which queues messages for each node that asks. The signers run a signing round (a
-- state machine) and answer. The stacks-coordinator polls a Stacks node for peg operations into a
-- queue, takes them from the queue one by one, builds the Bitcoin transaction that fulfils a peg-out,
-- has the frost-coordinator sign each input, and broadcasts.
--
-- Which file models what (paths from the root of the repository):
--   Prelude          lists, maps, texts, numbers as bytes; Outcome (a value, an error or a panic);
--                    Exec (a method with `&mut self`); Keeps and Total (what a method keeps, that it
--                    does not panic)
--   Relay/MemState   relay-server/src/mem_state.rs: MemState, get, post
--   Yarpc/Chars      what yarpc uses of Rust's texts: UTF-8, lower case, trim, numbers
--   Yarpc/Query, Message, Method, Request, Response
--                    yarpc/src/read_ex.rs and yarpc/src/http: url_query, messages read from bytes and
--                    written to them
--   Relay/Server     relay-server/src/server.rs (update, raw_call, call) and proxy_state.rs;
--                    url_with_id of frost-signer/src/net.rs
--   Frost/States     frost-signer/src/state_machine.rs and can_move_to of signing_round.rs
--   Frost/Messages, Frost/Hash
--                    the messages of frost-signer/src/signing_round.rs, their hash, sign, verify
--   Frost/Util       frost-signer/src/util.rs: make_shared_secret, encrypt, decrypt
--   Frost/Round/Defs, Shares, Dkg, Sign, Process
--                    SigningRound and its handlers in frost-signer/src/signing_round.rs; `process`
--                    is `process`, and `run` feeds it one message after the other as
--                    start_signing_round of frost-signer/src/signer.rs does
--   Frost/Config     frost-signer/src/config.rs: RawConfig, Config, try_from; `From<&FrostSigner> for
--                    SigningRound` of signing_round.rs
--   Frost/Verify     frost-signer/src/signer.rs: verify_msg, poll_loop, the signing of what is sent
--   Frost/Coordinator/Defs, Dkg, Sign, Finish, Run
--                    frost-coordinator/src/coordinator.rs, a definition for each method, with the
--                    method's name; longer methods are split at their loops
--   Peg/Queue/Defs, Ops
--                    stacks-coordinator/src/peg_queue: the two tables as records, the SQL statements
--                    as functions on lists of rows, the methods of SqlitePegQueue
--   Peg/Wallet/Defs  stacks-coordinator/src/bitcoin_wallet.rs
--   Peg/Process/Broadcast, Loop, Run, PegOut
--                    stacks-coordinator/src/coordinator.rs: try_broadcast_transaction, run, process_queue,
--                    fulfill_peg_out, peg_in, peg_out; next_nonce of stacks_node/client.rs
--   Node/Api, Read, Client
--                    stacks-coordinator/src/stacks_node/client.rs: what the node answers; the methods
--                    that only read or send; signer_data and next_nonce, which change maps or the client
--   Node/Wallet      stacks-coordinator/src/stacks_wallet.rs; address_version of util.rs
--   Node/Config      stacks-coordinator/src/config.rs
--   Node/Setup       the set-up in stacks-coordinator/src/coordinator.rs: create_frost_coordinator,
--                    load_dkg_data; create_coordinator of frost-coordinator/src/lib.rs
--   Node/Start       TryFrom<&Config> for StacksCoordinator there, which composes them with the wallets
--                    and the queue
--   Node/Bitcoin     stacks-coordinator/src/bitcoin_node.rs
--   SignerApi/Table, Vote, Database, Settings
--                    stacks-signer-api: the tables of migrations as lists of rows, vote.rs,
--                    transaction.rs and db, a function for each statement
--   SignerApi/Pages, Routes, Setup
--                    stacks-signer-api/src/routes, config.rs, and verify_config of main.rs
--   SignerApi/Race   votes that are handled at the same time, as a step relation
--   Tests            concrete runs, with a small cryptography and codec that have the laws
-- The other files hold the proofs and are named for what they prove.
--
-- State is a record that methods take and return. A method returns how it ended (a value, an error, a
-- panic) and the object as it was then. `unwrap`, `expect` and indexing are panics.
--
-- Parameters. Frost/Wsts and Aggregation in Frost/Coordinator/Defs stand for wsts, p256k1, sha2,
-- aes-gcm and the system's entropy; Frost/Laws states what their documentation promises. Codec and
-- CodecLaws in Peg/Queue/Defs stand for hex and JSON and the operations of blockstack_lib, Bitcoin in
-- Peg/Wallet/Defs for the crate bitcoin. NodeApi, StacksLib, ConfigLib, SetupLib and BitcoinApi in
-- Node stand for serde_json, blockstack_lib, bitcoin, url and bdk, Net and Rpc for the nodes behind
-- their URLs, Secp in SignerApi/Settings for secp256k1 and hex. StacksNode, Stacks and World hold what the nodes answer.
--
-- Bounds and fuel. Numbers are natural numbers; u32 and u64 sums are reduced modulo 2^32 and 2^64
-- where the code adds (a release build). A loop over messages recurs on the messages to come: a poll
-- that finds none is the time-out of the backoff. The nonce loop runs on one more than their number,
-- since each round takes at least one. try_broadcast_transaction runs on 13, one attempt and its 12
-- retries. process_queue runs on any number above that of the new rows, in
-- `run` on the next.
--
-- Choices. A HashMap iterates in the order of its keys, which Rust leaves open. The network of the
-- coordinator is a list of what polls will bring, a list of how sends will end, and what was sent.
-- An i64 in the database is kept as its 64 bits, and rows are ordered by them as signed numbers, then
-- by the bytes of the JSON text; of rows that tie, the oldest comes first. A SELECT without an order
-- gives rows as they were inserted. Foreign keys are enforced in the signer's API, as sqlx turns them
-- on, and each statement there is one step. A database that fails by itself is not modelled, nor are
-- logging, sleeping and threads.
--
-- Not modelled: TCP streams and HTTP below a request and its answer, the HTTP clients of net.rs, serde,
-- reading files and TOML, that dkg_public_shares.json cannot be written, the filters of warp and the
-- simulator of the signer's REST API, the command line tools, the Clarity contracts and all tests.
pub mod Prelude
pub mod Frost
pub mod Relay
pub mod Yarpc
pub mod Node
pub mod Peg
pub mod SignerApi
mod Tests
