-- ===== src/Election.antt =====
-- RDMA/src/rdma/dare_server.c: heartbeats, the start of an election, and the polling of vote
-- requests and votes, on the control data of the log. The index of the server is the number that
-- `config.idx` points to. The timers of libev are kept as what is armed.
pub mod Sid
pub mod Server
pub mod Poll
pub mod Scan
pub mod Terms
pub mod Count
pub mod Turns
pub mod Run
pub mod Stale
mod Tests
