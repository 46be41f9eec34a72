-- ===== src/Start/ReconnectTests.antt =====
-- A replica that comes back on a machine with one device.
use native.Mathlib.Omega.{arith}
use rdma_paxos.Prelude.{◌≡◌, ◌≢◌, refl, true, false, [], ◌∷◌, none, some}
use rdma_paxos.Log.{DareLog, log_new, zero_entry}
use rdma_paxos.Db.{BerkeleyDb}
use rdma_paxos.Consensus.Leader.{place_entry}
use rdma_paxos.Consensus.Replica.{ReplicaState, is_complete}
use rdma_paxos.Consensus.Silent.{Quiet}
use rdma_paxos.Rc.Setup.{
  rc_init, rc_prerequisite, rc_memory_reg, create_queues, rc_cq_create, rc_qp_create,
}
use rdma_paxos.Rc.Device.{dare_init_ib_device, first_device, init_one_device, find_port, find_pkey}
use rdma_paxos.Start.Node.{zero_config}
use rdma_paxos.Start.Server.{
  DareServer, init_server_data, init_eps, dare_init_ib_srv_data, network_on, init_network_cb,
  dare_server_init,
}
use rdma_paxos.Start.Manager.{alive, rep_thread, zero_mgr_config, EventManager, launch_rdma}
use rdma_paxos.Start.Reconnect.{reconnect_inner, renumber, reconnect_inner-Quiet}
use rdma_paxos.Start.Tests.{machine}
use rdma_paxos.Samples.{in_memory, node, server}

-- A replica that has been running.
abbrev manager : EventManager (BerkeleyDb.Handle in_memory)
manager = record {
  config = zero_mgr_config 1;
  sys_log_file = true;
  req_log_file = true;
  leader_tcp_map = [];
  replica_tcp_map = [];
  leader_udp_map = [];
  cur_rec = 9;
  db = λ key. none;
  con_node = record {
    config = record (zero_config 1) { size = 3 };
    comp = node 1;
    hb_on = 0;
    sys_log_file = true;
  };
  excluded_threads = rep_thread ∷ [];
  server = none;
  hb_thread = false;
}

abbrev replica : ReplicaState in_memory
replica = record { comp = node 1; srv = server; db = some (λ key. none) }

-- The log of a leader with room left.
abbrev used : DareLog
used = record log_new { end = 1000 }

-- It has come back with a server.
abbrev Back : Type 0
Back =
    (mgr : EventManager (BerkeleyDb.Handle in_memory)) × (s : DareServer) × (reconnect_inner machine
        1 manager
      ≡ alive (mgr, 0))
    × (mgr.server ≡ some s)
    × (s.log ≡ some log_new)

back : Back
unfolding reconnect_inner renumber launch_rdma dare_server_init init_server_data init_network_cb
    network_on dare_init_ib_device first_device init_one_device find_port find_pkey
    dare_init_ib_srv_data init_eps rc_init rc_prerequisite rc_memory_reg create_queues rc_cq_create
    rc_qp_create
back = (_, _, refl, refl, refl)

reconnect_inner-Quiet_example :
    Quiet in_memory (λ vs. 0) (λ fd index. 0) replica ((λ offset. zero_entry) ∷ [])
    × ((place_entry used 2).tail ≢ 0)
unfolding is_complete log_new
reconnect_inner-Quiet_example =
    reconnect_inner-Quiet in_memory (λ vs. 0) (λ fd index. 0) machine 1 manager back.0 back.1
      replica ((λ offset. zero_entry) ∷ []) used 2 back.2 back.3 back.4 (refl, tt) refl
      (omega arith) (omega arith)
