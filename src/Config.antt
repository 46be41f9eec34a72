-- ===== src/Config.antt =====
-- The readers of the configuration file: RDMA/src/config-comp/config-comp.c and
-- RDMA/src/config-comp/config-mgr.c, over libconfig and `inet_pton`.
pub mod Readers
pub mod Accepted
pub mod Tests
