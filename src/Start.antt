-- ===== src/Start.antt =====
-- The start of the process: RDMA/src/ev_mgr/ev_mgr.c (`mgr_init`), RDMA/src/replica-sys/replica.c,
-- RDMA/src/rdma/dare_server.c and dare_ibv.c, and the database.
pub mod Database
pub mod Server
pub mod Node
pub mod Manager
pub mod Shutdown
pub mod Held
pub mod Numbered
pub mod Fresh
pub mod Boot
pub mod Reconnect
mod Tests
mod ReconnectTests
