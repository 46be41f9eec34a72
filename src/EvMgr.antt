-- ===== src/EvMgr.antt =====
-- RDMA/src/ev_mgr/ev_mgr.c: the event manager, between the hooks in the server process and the
-- consensus component. On the leader it submits what the server's clients do; on a replica it
-- replays the applied records to the local server.
pub mod Maps
pub mod Rsm
pub mod Idle
pub mod Leader
pub mod Check
pub mod Verdict
pub mod Replay
pub mod Replayed
pub mod Serving
pub mod Session
pub mod Datagrams
pub mod Sockets
pub mod OneSocket
pub mod Hooks
pub mod Checkpoint
pub mod Commands
mod Tests
mod DatagramTests
