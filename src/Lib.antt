-- ===== src/Lib.antt =====
-- go-mini-opera is a node of an aBFT network: it checks, connects, stores, gossips and emits the
-- events of a DAG, orders them with the consensus engine of lachesis-base, and cuts epochs.
--
-- Prelude.antt holds the shared names and the lemmas on lists, options, numbers and powers.
--
-- Fast.antt is utils/fast. Fast/BitArray.antt models bits.go, the packed arrays of 1-, 2- or 4-bit
-- numbers (NewBitArray, Writer, Reader, Push, Pop, nextPart, calcSize), with a uint counted modulo
-- 2 ^ 64; Fast/Buffer.antt models buffer.go, a byte slice with what its array holds behind it, since
-- Go bounds a slice expression by the capacity. A panic is `none`.
--
-- Inter.antt is the package inter. Inter/Event.antt and Inter/Build.antt model event.go and
-- signature.go: the event, its caches, its hash to sign, its id and Build. Inter/Serializer models
-- event_serializer.go: Compact is writeUintCompact and readUintCompact, Marshal is MarshalBinary,
-- Unmarshal is UnmarshalBinary with its deferred recover, Inter/Decode.antt is DecodeRLP on what the
-- stream yields. Results are values, errors or panics (Inter/Result.antt). The record Platform holds
-- what comes from lachesis-base and crypto/sha256: the bytes of an epoch, the hash and SetID.
--
-- EventCheck.antt is eventcheck: Errors (ban.go), Checkers (the Validate methods of all.go,
-- basiccheck, parentscheck and heavycheck; MaxParents is taken as a natural number) and Heavy (the
-- batches of Enqueue and a worker's round). The checkers and self-parent methods of lachesis-base and
-- go-ethereum's VerifySignature are the record Base. Enqueue runs on the number of events plus one as
-- fuel, which is enough since every round moves the position on.
--
-- Utils/Migration.antt is utils/migration: the chain of migrations and Exec, with Keccak as a
-- parameter and both id stores as one field.
--
-- Gossip.antt is a part of gossip. Gossip/Kv.antt is the interface of a kvdb table with the laws that
-- the stores rely on; Gossip/Heads.antt models store_heads.go, Gossip/Packs.antt models pack.go and
-- store_pack.go, and Gossip/Processing.antt models processEvent of consensus_callbacks.go over them,
-- with the events' table of store_event.go, resetEpochStore and Commit. The engine's ProcessEvent is
-- a parameter that returns its error and the epoch after it; Gossip/Blocks.antt models BeginBlock,
-- ApplyEvent and EndBlock, which the engine calls back, on the decided state and the blocks.
-- The LRU caches repeat the tables and are left out, as are keys as bytes. Gossip/ExecQueue.antt
-- models execqueue.go: operations under its lock and the loop that calls the functions, as a
-- sequence of actions.
-- Gossip/Peers.antt and Gossip/PeerSets.antt model peer.go over the interface of a set with a bounded
-- size (Gossip/EventSets.antt), with what p2p.Send returns as an argument; Gossip/Incoming.antt has
-- the incoming messages, with what Decode makes of them, and the handshake, over every order in which
-- its goroutines report. Gossip/Handler.antt models handleMsg of handler.go, a definition for each
-- message code: what it reads of the store is an argument, its calls of the fetcher and the downloader
-- are kept as a list. Gossip/Lifecycle.antt models handle, removePeer and the progress,
-- with what other handlers and Close do to the peer set meanwhile as two sequences of actions, as if
-- each of them came before the registration or between it and the deferred removal; closing a peer
-- reaches the elements of the set that are its pointer. Gossip/Broadcast.antt models the broadcasts,
-- Gossip/Wanted.antt the filters of ids. The loop that makes room
-- in a set has the set's size as fuel, RequestEvents the number of ids plus one.
-- Gossip/Emitter.antt models gossip/emitter: createEvent, EmitEvent and OnNewEvent, with the store, the
-- search for parents, world.Build, crypto.Sign and the checkers as the record World.
-- Gossip/PoolQueue.antt models the queue of entries of gossip/serverpool.go, whose fuel is the distance
-- of its pointers. Gossip/RandomSelect.antt and Gossip/WeightedSelect.antt model the tree and the set of
-- gossip/randselect.go: the tree of a level holds trees of the level below, and its items are also seen
-- as one list with a place for each index. The sums of weights are those of int64. Weight() is a function
-- of the time and the item, and another one at each turn of choose, whose fuel is one more than the sum
-- of the weights, since a turn that returns no item lowers the sum.
-- Gossip/ServerPool.antt models the pool of gossip/serverpool.go: its entries in a store, checkDial and
-- the handlers of the event loop (Gossip/ServerPool/Events.antt). The formulas of the weights, at
-- each time of each call, and the random numbers are a parameter of each event; a loop of checkDial has
-- six turns as fuel, since each turn dials one of at most five.
-- Gossip/Genesis.antt models gossip/apply_genesis.go and the hash of miniopera/genesis/validators.go.
-- The numbers' ranges are hypotheses where a number could wrap around.
--
-- Examples.antt in each folder and Gossip/PeerExamples.antt hold concrete runs.
--
-- Not modelled: the goroutines and locks of the protocol manager, the addresses, statistics and
-- timers of the server pool and its database, the emitter's ticker and test payload, and the
-- commands, debugging, logging and metrics, which are input and output or wiring of third-party
-- code.
pub mod Prelude
pub mod Fast
pub mod Inter
pub mod EventCheck
pub mod Utils
pub mod Gossip
