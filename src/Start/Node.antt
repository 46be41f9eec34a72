-- ===== src/Start/Node.antt =====
-- RDMA/src/replica-sys/replica.c: `system_initialize` and `initialize_node`, with the files for the
-- logs.
use rdma_paxos.Prelude.{
  ℕ, ◌==◌, if◌then◌else◌, Bool, true, false, ◌&&◌, ◌||◌, List, Option, none, some, ℤ, pos, negsuc,
}
use rdma_paxos.ViewStamp.{View}
use rdma_paxos.Consensus.Types.{ConsensusComponent, init_consensus_comp}
use rdma_paxos.Config.Readers.{Libconfig, NodeConfig, consensus_read_config}

pub data LogFile : Type 0 where
  consensus_sys mgr_sys mgr_req : LogFile

-- What the calls on files give: `mkdir` succeeds or finds the directory there, `fopen` of a file.
pub record Files : Type 0 where
  pub mkdir : Bool
  pub eexist : Bool
  pub fopen : LogFile → Bool

-- `!build_log_ret`, for a path or the default one.
unfoldable pub build_log : Files → Option (List ℕ) → Bool
build_log files none = true
build_log files (some log_path) = files.mkdir || files.eexist

-- A result that is not 0.
abbrev pub is_error : ℤ → Bool
is_error (pos n) = if n == 0 then false else true
is_error (negsuc n) = true

-- What `node` keeps besides what `consensus_read_config` writes.
pub record NodeState : Type 0 where
  pub config : NodeConfig
  pub comp : ConsensusComponent
  pub hb_on : ℕ
  pub sys_log_file : Bool

-- Memory that is all zero.
abbrev pub zero_config : ℕ → NodeConfig
zero_config node_id = record {
  node_id = node_id;
  size = 0;
  address = 0;
  sys = pos 0;
  stat = pos 0;
  name = none;
}

-- `initialize_node`; its result is 0.
unfoldable pub initialize_node : Files → Option (List ℕ) → View → NodeConfig → ℕ × NodeState
initialize_node files log_path cur_view config = (
  0,
  record {
    config = config;
    comp = init_consensus_comp config.node_id config.size cur_view;
    hb_on = 0;
    sys_log_file = build_log files log_path && files.fopen consensus_sys;
  },
)

-- The view that the start mode asks for; `mode` is its first byte.
unfoldable pub start_view : (mode node_id : ℕ) → View
start_view mode node_id =
    if mode == b's'
    then record { view_id = 1; leader_id = node_id; req_id = 0 }
    else record { view_id = 0; leader_id = 9999; req_id = 0 }

unfoldable pub system_initialize :
    {F S : Type 0}
    → Libconfig F S
    → Files
    → (node_id : ℕ) → (config_path : List ℕ) → (log_path : Option (List ℕ)) → (mode : ℕ)
    → Option NodeState
system_initialize lc files node_id config_path log_path mode =
    let (bad, config) = consensus_read_config lc config_path (zero_config node_id) in
    let (flag, my_node) = initialize_node files log_path (start_view mode node_id) config in
    if is_error bad then none else if flag == 0 then some my_node else none

-- `get_group_size`
unfoldable pub get_group_size : NodeState → ℕ
get_group_size my_node = my_node.config.size
