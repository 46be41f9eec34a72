-- ===== src/Output.antt =====
-- RDMA/src/output/output.c: for each connection the hash of what the server wrote to it, 1024 bytes
-- at a time. An `int` or `long` that is never negative is a number; `buff_size` is below 2 ^ 31.
pub mod Library
pub mod Handler
pub mod Manager
pub mod Stream
pub mod Round
pub mod Store
pub mod Calls
pub mod Agree
pub mod Propose
mod Tests
