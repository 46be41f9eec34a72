-- ===== src/Ud.antt =====
-- The datagrams by which a server joins the group and the connections are set up:
-- RDMA/src/rdma/dare_ibv_ud.c.
pub mod Handlers
pub mod Event
pub mod Handshake
pub mod Tests
