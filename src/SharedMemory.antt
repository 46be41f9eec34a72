-- ===== src/SharedMemory.antt =====
-- shared_memory/src: an earlier version of the protocol, in which the logs of all nodes are segments
-- of shared memory on one machine.
pub mod Types
pub mod Attach
pub mod Start
pub mod Leader
pub mod Replica
pub mod Copies
pub mod Service
pub mod Held
pub mod Turns
pub mod Steps
pub mod Replicated
pub mod Boot
mod Tests
