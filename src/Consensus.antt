-- ===== src/Consensus.antt =====
-- RDMA/src/consensus/consensus.c: the leader's and the replica's half of the consensus protocol.
-- The modules below hold its state, the functions, and what is proved of them.
pub mod Types
pub mod Quorum
pub mod Leader
pub mod Replica
pub mod BitMap
pub mod Offsets
pub mod Sends
pub mod Reached
pub mod Votes
pub mod Intersect
pub mod Threads
pub mod Apply
pub mod Flight
pub mod InFlight
pub mod Written
pub mod Kept
pub mod Moves
pub mod Commit
pub mod Flowing
pub mod Drain
pub mod Received
pub mod Delivery
pub mod Alike
pub mod Replicated
pub mod Wrapped
pub mod Silent
mod Tests
mod ReplicatedTests
