-- ===== src/Start/Manager.antt =====
-- `mgr_init` and `mgr_on_process_init` of RDMA/src/ev_mgr/ev_mgr.c, `launch_rdma` and
-- `launch_replica_thread` of RDMA/src/replica-sys/replica.c, and `tern_init_func` of
-- RDMA/src/spec_hooks.cpp.
use rdma_paxos.Prelude.{
  ℕ, zero, suc, if◌then◌else◌, Bool, false, ◌&&◌, List, [], ◌∷◌, ◌++◌, Option, none, some, pos, ◌%◌,
  ◌^◌,
}
use rdma_paxos.ViewStamp.{ViewStamp}
use rdma_paxos.EvMgr.Replay.{ReplicaTcpPair}
use rdma_paxos.Config.Readers.{Libconfig, MgrConfig, mgr_read_config}
use rdma_paxos.Start.Database.{DbOpening, initialize_db}
use rdma_paxos.Start.Node.{
  Files, NodeState, is_error, build_log, system_initialize, mgr_sys, mgr_req,
}
use rdma_paxos.Start.Server.{
  Machine, DareServer, Outcome, returned, exited, crashed, dare_server_init,
}

pub data Thread : Type 0 where
  rep_thread check_point_thread : Thread

-- A process that goes on, has ended with a status, or has used a null pointer.
pub data Process (A : Type 0) : Type 0 where
  alive : A → Process A
  ended : ℕ → Process A
  faulted : Process A

-- `event_manager` over the handle `H` of a database, with the data of `dare_server_init` while it
-- is there.
pub record EventManager (H : Type 0) : Type 0 where
  pub config : MgrConfig
  pub sys_log_file : Bool
  pub req_log_file : Bool
  pub leader_tcp_map : List (ℕ × ViewStamp)
  pub replica_tcp_map : List (ViewStamp × ReplicaTcpPair)
  pub leader_udp_map : List (List ℕ × ViewStamp)
  pub cur_rec : ℕ
  pub db : H
  pub con_node : NodeState
  pub excluded_threads : List Thread
  pub server : Option DareServer
  pub hb_thread : Bool

-- What `launch_rdma` makes of the end of `dare_server_init`.
abbrev pub launched : Outcome → Process (ℕ × Option DareServer × Bool)
launched (returned zero s hb) = alive (0, some s, hb)
launched (returned (suc code) s hb) = alive (1, none, hb)
launched (exited status calls s) = ended status
launched crashed = faulted

-- `launch_rdma`
unfoldable pub launch_rdma : Machine → NodeState → Process (ℕ × Option DareServer × Bool)
launch_rdma m my_node = launched (
    dare_server_init m (record {
      group_size = my_node.config.size;
      server_idx = my_node.config.node_id;
      hb_on = my_node.hb_on;
    }))

module _ (pthread_create : Thread → Bool) where
  -- `launch_replica_thread`: the thread is listed whether it was made or not.
  unfoldable pub launch_replica_thread : List Thread → ℕ × List Thread
  launch_replica_thread excluded =
      (if pthread_create rep_thread then 0 else 1, excluded ++ rep_thread ∷ [])

-- Memory that is all zero.
abbrev pub zero_mgr_config : ℕ → MgrConfig
zero_mgr_config node_id = record {
  node_id = node_id;
  rsm_on = pos 0;
  check_on = pos 0;
  ts = pos 0;
  sys = pos 0;
  stat = pos 0;
  req = pos 0;
  address = 0;
  port_no = pos 0;
  name = none;
}

module _ {H : Type 0} (pthread_create : Thread → Bool) where
  -- What `mgr_on_process_init` makes of the result of `launch_rdma`. Its own result is that of
  -- `launch_replica_thread` alone.
  abbrev pub initialised :
      EventManager H → Process (ℕ × Option DareServer × Bool) → Process (ℕ × EventManager H)
  initialised mgr (alive (code, server, hb)) =
      let (code', excluded) = launch_replica_thread pthread_create [] in
      alive (
        code',
        record mgr {
          excluded_threads = excluded ++ check_point_thread ∷ [];
          server = server;
          hb_thread = hb;
        },
      )
  initialised mgr (ended status) = ended status
  initialised mgr faulted = faulted

  unfoldable pub mgr_on_process_init : Machine → EventManager H → Process (ℕ × EventManager H)
  mgr_on_process_init m mgr = initialised mgr (launch_rdma m mgr.con_node)

  -- What `mgr_init` makes of the result of `mgr_on_process_init`, which it does not look at.
  abbrev pub returns : Process (ℕ × EventManager H) → Process (Option (EventManager H))
  returns (alive (code, mgr)) = alive (some mgr)
  returns (ended status) = ended status
  returns faulted = faulted

  module _ {F S : Type 0} (lc : Libconfig F S) (lib : DbOpening H) (files : Files)
      (m : Machine) where
    -- The configuration and the database, or none where `mgr_init` goes to its error exit.
    unfoldable pub config_and_db : (node_id : ℕ) → (config_path : List ℕ) → Option (MgrConfig × H)
    config_and_db node_id config_path =
        let (bad, config) = mgr_read_config lc config_path (zero_mgr_config node_id) in
        let opened = initialize_db lib config.name 0 in
        if is_error bad then none else elim opened [ none ↦ none | some db ↦ some (config, db) ]

    -- The manager before `mgr_on_process_init`.
    abbrev pub manager_of : Option (List ℕ) → MgrConfig → H → NodeState → EventManager H
    manager_of log_path config db con_node = record {
      config = config;
      sys_log_file = build_log files log_path && files.fopen mgr_sys;
      req_log_file = build_log files log_path && files.fopen mgr_req;
      leader_tcp_map = [];
      replica_tcp_map = [];
      leader_udp_map = [];
      cur_rec = 0;
      db = db;
      con_node = con_node;
      excluded_threads = [];
      server = none;
      hb_thread = false;
    }

    -- `mgr_init`; `mode` is the first byte of the start mode, which is read through a null pointer if
    -- there is none. The result none is a null pointer.
    unfoldable pub mgr_init :
        (node_id : ℕ)
        → (config_path : List ℕ) → (log_path : Option (List ℕ)) → (mode : Option ℕ)
        → Process (Option (EventManager H))
    mgr_init node_id config_path log_path none = elim (config_and_db node_id config_path) [
      | none ↦ alive none
      | some (config, db) ↦ faulted
    ]
    mgr_init node_id config_path log_path (some mode) = elim (config_and_db node_id config_path) [
      | none ↦ alive none
      | some (config, db) ↦ elim (system_initialize lc files node_id config_path log_path mode) [
        | none ↦ alive none
        | some con_node ↦ returns (mgr_on_process_init m (manager_of log_path config db con_node))
      ]
    ]

    -- The first byte of a text, which ends with a zero.
    abbrev pub first_byte : Option (List ℕ) → Option ℕ
    first_byte none = none
    first_byte (some []) = some 0
    first_byte (some (c ∷ cs)) = some c

    -- `tern_init_func`, where `cfg_path` is set: the environment may hold the number of the node, a
    -- text which `atoi` reads, and the start mode. `atoi` reads through a null pointer if the first
    -- is missing.
    unfoldable pub tern_init_func :
        (atoi : List ℕ → ℕ)
        → (cfg_path : List ℕ) → (node_id start_mode : Option (List ℕ))
        → Process (Option (EventManager H))
    tern_init_func atoi cfg_path none start_mode = faulted
    tern_init_func atoi cfg_path (some id) start_mode =
        mgr_init (atoi id % 2 ^ 32) cfg_path none (first_byte start_mode)
