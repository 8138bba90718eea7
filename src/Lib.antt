-- ===== src/Lib.antt =====
-- Validated Streams: a library over the Rust crates of the repository. A trusted client gives event
-- ids to its node; the nodes of a proof-of-authority chain sign, gossip and count them; an event that
-- enough authorities have witnessed is submitted to the chain, and a block passes only if all of its
-- events are witnessed.
--
-- Parts and files. Paths are from the root of the repository.
--   Errors                consensus/src/errors.rs
--   Primitives            the byte strings, keys and hashes that the crates share
--   Interfaces            what the crates take from Substrate, as parameters
--   Proofs, .Contract     consensus/src/proofs/mod.rs: `EventProofsTrait` and what it promises
--   Proofs.InMemory       consensus/src/proofs/in_memory.rs
--   Proofs.RocksDb        consensus/src/proofs/rocksdb.rs
--   Proofs.Offchain       consensus/src/proofs/offchain.rs
--   Events                consensus/src/events/mod.rs: authorities, target, checks
--   Events.Gossip         consensus/src/events/gossip.rs: `EventGossipHandler`
--   Events.Witness        consensus/src/events/witness.rs: `EventWitnesser`
--   Events.Validate       consensus/src/events/validate.rs: `EventValidator`
--   BlockImport           consensus/src/block_import.rs: `ValidatedStreamsBlockImport`
--   Gossip                consensus/src/gossip/mod.rs: `Gossip` and `GossipService`
--   Config                consensus/src/config.rs: `PortOrOffset`
--   Server                consensus/src/server.rs: the gRPC service; in Finalized, its stream over the
--                         validator of Events.Validate
--   Network               several nodes, each the handler of Events.Gossip in the service of Gossip,
--                         in Imports, the import of a block over what that has stored; in
--                         Requests, a request of a trusted client over the witnesser
--   Submission            Events.Gossip, Runtime and Pallet.OnChain together: from the handler of gossip
--                         to the pallet, with proofs kept on the chain
--   Service               node/src/service.rs: `new_partial` and `new_full`
--   Command               node/src/command.rs and node/src/cli.rs: `load_spec` and `run`
--   Benchmarking          node/src/benchmarking.rs: the signed extrinsics of the benchmark commands
--   Node                  consensus/src/node.rs: the addresses of `start` and the orders that it sends
--   Pallet                pallet/src/lib.rs: OffChain and OnChain are the two builds of
--                         `validate_event`, Unsigned is `validate_unsigned`
--   Runtime               runtime/src/lib.rs: `ValidatedStreamsApi`
--   ChainSpec             node/src/chain_spec.rs
--   EventNumbers          samples/tps-benchmark/src/main.rs: the ids of its events
--   Base                  results, actions on a state, lists, hash maps, Boolean tests
--   Tests                 a small network on which the theorems are tried
--
-- How code becomes definitions. A method keeps its name. One that takes `&self` and writes through a
-- lock, a cache or a database is an `Action`: a function from the state to a `Result` and the state
-- that it leaves, also on an error. `?` is the bind of `Result` or of `Action`. A function that can
-- panic has a failure for it. The feature `off-chain-proofs` is a Boolean of the handler, and two
-- modules of the pallet. Logging is left out. Integers wrap as
-- in a release build: `u16` and `u32` by `% 2 ^ 16` and `% 2 ^ 32`, and the negation of the least
-- `i16`. The library's saturating and parsing functions on integers are written out in Config.
--
-- How parts interact. `Events.Gossip` calls a store of proofs, which is any value of `EventProofs`;
-- `IsEventProofs` is the contract that its theorems assume of it, and `IsExact` and
-- `IsRocksDbEventProofs` add what a purge does to the proofs of other events. The
-- handler, the witnesser and the block import look authorities up through the same cached
-- `get_authorities_list`. The witnesser writes to the channel that `Gossip` reads, and `Gossip` hands
-- every message to a handler; `Network` puts the two together, for nodes whose stores, clients and
-- swarms may differ, and compares nodes by the set of the messages that they have taken, a quotient of
-- lists. `Network.Imports` adds the block import over the same store. `Command` chooses between a tool
-- and `Service.Full.new_full`, which starts the parts. `Runtime` makes the extrinsics that `Pallet`
-- dispatches.
--
-- Parameters and their laws. The sr25519 scheme, bincode, the keystore, the LRU cache, the
-- transaction pool, the client with its runtime API, RocksDB, the off-chain storage, the swarm of
-- libp2p and the multiaddr crate are records of operations. The laws assumed of them are
-- `IsLruCache`, `IsKeystore`, `IsEventCodec`, `IsKeyCodec`, `IsListCodec`, `IsRocksDb`,
-- `IsOffchainStorage`, `IsMultiaddr`, `IsBounded`, `IsRawKeys`, `IsMortal`, `IsPair` and
-- `ReadsHashes`, and, where a call is to succeed, `IsWorking` and `IsFaultless`; Tests has a value of
-- each for which they hold.
--
-- Bounds and fuel. Counts of proofs and the target are cast to `u16`; theorems that need it assume
-- fewer than 2^16, or than 98303, authorities, beyond which a cast loses digits. The runtime bounds
-- them by 32. Digits are printed on fuel 5, enough for 16 bits. The loop of `adjust_multiaddr` runs on
-- fuel, of which it takes one more than the number of protocols that it takes off. The
-- endless loops of the gossip service, of the stream and of the wait for a finalized block are
-- functions of the list of their turns, and so are the compare-and-set loops of the off-chain store,
-- whose turns say what other tasks do in between. The channel of the gossip service holds 64 orders.
-- While no service receives, in `Node.start`, a sender to a full channel waits for ever; elsewhere a
-- call of `publish` is what it has done once there was room.
--
-- The start-up. What Substrate builds is a record of calls that can fail, `Substrate`, and the tools of
-- the command line are another, `Tools`. A machine keeps their state and a log of what has been started;
-- values that only configure Substrate are left out.
--
-- Not modelled: building the swarm of libp2p, binding the gRPC sockets, the parsing of the command
-- line, the RPC extensions, the configuration of other pallets in the runtime, weights, benchmarks of the
-- pallet, the loop of the TPS benchmark that sends from spawned tasks at a rate of 32-bit floats, and
-- the other samples.
pub mod Base
pub mod Errors
pub mod Primitives
pub mod Interfaces
pub mod Proofs
pub mod Events
pub mod Pallet
pub mod Config
pub mod Gossip
pub mod Runtime
pub mod Server
pub mod BlockImport
pub mod Network
pub mod Service
pub mod Command
pub mod Node
pub mod EventNumbers
pub mod Submission
pub mod Benchmarking
pub mod ChainSpec
mod Tests
