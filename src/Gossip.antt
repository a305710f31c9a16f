-- ===== src/Gossip.antt =====
-- The package gossip.
pub mod Kv
pub mod Heads
pub mod Packs
pub mod Processing
pub mod ExecQueue
pub mod Blocks
pub mod EventSets
pub mod Peers
pub mod Incoming
pub mod PeerSets
pub mod Handler
pub mod Lifecycle
pub mod Broadcast
pub mod Wanted
pub mod PeerExamples
pub mod Emitter
pub mod PoolQueue
pub mod RandomSelect
pub mod WeightedSelect
pub mod ServerPool
pub mod Genesis
pub mod Examples
