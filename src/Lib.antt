-- ===== src/Lib.antt =====
-- RDMA_Paxos replicates a server process: the leader orders every input of the process in a log,
-- writes the log to the replicas by RDMA, commits an input once a majority has acknowledged it, and
-- compares hashes of the output of the replicas to find one that has gone astray.
--
-- The program's parts and the modules that model them (paths from the repository's root):
-- - ViewStamp: RDMA/src/util/common-structure.c. `vstol` and `ltovs` turn a view stamp into a
--   record number and back, `view_stamp_comp` compares stamps.
-- - Log: RDMA/src/include/rdma/dare_log.h. The ring of entries with `log_add_new_entry`,
--   `log_get_entry` and the tests on it. An entry is addressed by its byte offset.
-- - Db: RDMA/src/db/db-interface.c. `store_record` and `retrieve_record` over Berkeley DB, which is
--   the parameter `BerkeleyDb`: a successful put is read back, and other keys keep their values.
-- - Consensus: RDMA/src/consensus/consensus.c. Consensus/Leader has `leader_handle_submit_req` cut
--   where other threads may come between (`reserve` under the spin lock, `submit_entry`, the passes
--   `recheck`, `may_commit` and `commit`); Consensus/Quorum has the count of acknowledgements.
--   Consensus/Threads runs any number of such calls in any order, with remote writes to the log in
--   between, as a function on lists of events; Consensus/Written and Consensus/Kept are about the
--   stamps in the entries, which the wait for the turn to commit reads again at each test. Consensus/Replica has the loop of
--   `handle_accept_req`: a list of memories stands for what remote writes have put into the log
--   before each round. Consensus/Delivery puts the two together: the write of the leader and the
--   round of a replica after it; Consensus/Replicated runs this over a list of requests, each write
--   followed by one round, and Consensus/Reached says when a write reaches the replica.
--   Consensus/Sends is about the writes that are posted, Consensus/Wrapped about the end of the log.
-- - Output: RDMA/src/output/output.c. The hash of everything a connection has sent, kept by
--   `store_output`, read by `get_output_hash`, and proposed for comparison by `determine_output`.
--   The list and `crc64` are the parameter `OutputLib`. Output/Stream is the abstract view: the
--   bytes of a connection, cut into buffers of 1024.
-- - Decision: RDMA/src/output/decision.c. `do_decision` compares the hashes that the nodes reported
--   and sends commands to restore.
-- - EvMgr: RDMA/src/ev_mgr/ev_mgr.c and `rsm_op` of RDMA/src/replica-sys/replica.c. EvMgr/Leader and
--   EvMgr/Check have the hooks on the leader, EvMgr/Replay the callbacks that replay records on a
--   replica, EvMgr/Checkpoint the flags by which a checkpoint disconnects a node. EvMgr/Maps stands
--   for the uthash tables. EvMgr/Hooks has the hooks of RDMA/src/spec_hooks.cpp that call these,
--   EvMgr/Commands the commands of RDMA/src/ev_mgr/check_point_thread.c, EvMgr/Verdict the way from
--   the replies to a decision, EvMgr/Session and EvMgr/OneSocket the way of the data of TCP and UDP
--   clients to the server of a replica. What the operating system returns is an argument.
-- - Election: RDMA/src/rdma/dare_server.c and the writes that RDMA/src/rdma/dare_ibv_rc.c posts for
--   it. Election/Sid has the macros on the state identifier, Election/Server the heartbeats and the
--   start of an election, Election/Poll the polling of votes and vote requests. Election/Run has the
--   callbacks of a server one after the other, with any writes to its memory in between.
-- - Rc: RDMA/src/rdma/dare_ibv_rc.c and `find_max_inline` of RDMA/src/rdma/dare_ibv.c. Rc/Connect has
--   `rc_connect_server`, Rc/Post `post_send`, `poll_cq` and the writes that consensus.c makes with
--   them. The verbs library is the parameter `Verbs`; Rc/Verbs and Rc/Waiting say what its manual
--   promises of queue pairs and completions. Rc/Setup has `rc_init` and `rc_free`,
--   Rc/Release what comes of the one after the other, Rc/Device the choice of a device in
--   `dare_init_ib_device`.
-- - Ud: RDMA/src/rdma/dare_ibv_ud.c. Ud/Handlers has the messages and their handlers, which write the
--   endpoints that Consensus sends to, Ud/Event the switch over the type of a message.
-- - Start: how a process comes up. Start/Manager has `mgr_init` of RDMA/src/ev_mgr/ev_mgr.c and
--   `tern_init_func` of RDMA/src/spec_hooks.cpp, Start/Node RDMA/src/replica-sys/replica.c,
--   Start/Server `dare_server_init` and the shutdown of RDMA/src/rdma/dare_server.c and dare_ibv.c,
--   Start/Database `initialize_db`. Start/Boot puts a leader and a replica together from their
--   start on. Start/Reconnect has `reconnect_inner` of RDMA/src/ev_mgr/ev_mgr.c and the whole of
--   `check_point_condtion`; Consensus/Silent is about the log that a replica then has.
-- - Config: RDMA/src/config-comp/config-comp.c and config-mgr.c. The readers of the configuration
--   file, over libconfig, which is the parameter `Libconfig`.
-- - SharedMemory: shared_memory/src, an earlier version of the protocol in which the logs are segments
--   of shared memory. SharedMemory/Leader has `rsm_op`, SharedMemory/Replica a round of
--   `handle_accept_req`, both of shared_memory/src/consensus/consensus.c, SharedMemory/Attach
--   `init_shm`, SharedMemory/Start the configuration and the hooks, and SharedMemory/Boot puts them
--   together. It uses ViewStamp, the test for a quorum of Consensus/Quorum and the loop over record
--   numbers of Consensus/Replica, whose code it has too, and Libconfig; nothing uses it.
-- - Samples: concrete instances of the parameters, for the tests.
--
-- EvMgr submits to Consensus on the leader, and is called by Consensus with each applied record
-- number on a replica; it drives Output and Decision. Consensus uses ViewStamp, Log and Db. A
-- replica's reply carries a hash that it gets of Output, a parameter of Consensus/Replica, and
-- Decision takes the replies.
--
-- Bounds and fuel: machine words wrap as in the source, `% 2 ^ 32` and `% 2 ^ 64`. The leader's
-- threads are considered while the counter of stamps does not wrap. The loop of a replica over
-- record numbers has as fuel two more than their number, the loop of `store_output` one more than
-- the bytes it is given, and the search of `find_max_inline` 22; all are proved to end within it. The
-- loop of `poll_cq` has any fuel, since it may wait forever.
--
-- Not modelled: the verbs library, the sockets, libconfig, `fork`, and entries of the log that
-- overlap in memory. In SharedMemory the calls of `rsm_op` come one after the other. In EvMgr
-- `rsm_op` is a call whose thread has no other call beside it and whose acknowledgements arrive; if
-- its turn to commit never comes, the node waits from then on. EvMgr/Idle is about nodes where it
-- comes. Remote writes to the memory of the leader are those of acknowledgements. The
-- timers of libev are kept as what is armed. A failure of an allocation is modelled only in
-- Start/Server. `comp->uc`, which may take a replica out of the group before a round, is modelled in
-- Start/Reconnect but is not part of the rounds of Consensus/Replica.
pub mod Prelude
pub mod ViewStamp
pub mod Decision
pub mod Output
pub mod Log
pub mod Db
pub mod Consensus
pub mod Election
pub mod EvMgr
pub mod Rc
pub mod Config
pub mod Ud
pub mod Start
pub mod Samples
pub mod SharedMemory
