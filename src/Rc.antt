-- ===== src/Rc.antt =====
-- The RDMA connections between the servers: RDMA/src/rdma/dare_ibv_rc.c and the search for the inline
-- size in RDMA/src/rdma/dare_ibv.c, over the verbs library.
pub mod Verbs
pub mod Connect
pub mod Machine
pub mod Post
pub mod Waiting
pub mod Bounds
pub mod Stuck
pub mod Inline
pub mod Setup
pub mod Release
pub mod Device
pub mod Samples
pub mod Tests
