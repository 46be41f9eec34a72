-- ===== src/Consensus/Types.antt =====
-- The state of consensus.c: the component of a node, and the server data of dare_server.h that the
-- consensus functions use.
use rdma_paxos.Prelude.{ℕ, ◌+◌, ◌%◌, ◌==◌, if◌then◌else◌, Bool, u32}
use rdma_paxos.ViewStamp.{View, ViewStamp}
use rdma_paxos.Log.{DareLog}

-- `request_type`; the constants have the values of the enumeration.
abbrev pub p_tcp_connect : ℕ
p_tcp_connect = 1

abbrev pub p_send : ℕ
p_send = 2

abbrev pub p_close : ℕ
p_close = 3

abbrev pub p_output : ℕ
p_output = 4

abbrev pub p_nop : ℕ
p_nop = 5

abbrev pub p_udp_connect : ℕ
p_udp_connect = 6

-- The byte 'f'.
abbrev pub dummy_end : ℕ
dummy_end = b'f'

-- S_DEPTH_ of RDMA/src/include/rdma/dare_ibv_rc.h is 4095: a `& S_DEPTH_` is `% 4096`.
abbrev pub s_depth : ℕ
s_depth = 4096

pub data ConRole : Type 0 where
  leader secondary : ConRole

-- `consensus_component`, without the log files and the callbacks.
pub record ConsensusComponent : Type 0 where
  pub my_role : ConRole
  pub node_id : ℕ
  pub group_size : ℕ
  pub cur_view : View
  pub highest_seen_vs : ViewStamp
  pub highest_to_commit_vs : ViewStamp
  pub highest_committed_vs : ViewStamp

-- `dare_ib_ep_t`, without the handles of the queues; `qpn` is the number of the remote queue pair.
pub record Endpoint : Type 0 where
  pub rc_connected : ℕ
  pub qpn : ℕ
  pub send_count : ℕ
  pub raddr : ℕ
  pub rkey : ℕ

-- What consensus.c uses of `dare_server_data_t`.
pub record ServerData : Type 0 where
  pub idx : ℕ
  pub log : DareLog
  pub servers : ℕ → Endpoint

-- A call of `post_send` for an RDMA write of `len` bytes to `raddr` at `server_id`.
pub record Send : Type 0 where
  pub server_id : ℕ
  pub len : ℕ
  pub raddr : ℕ
  pub rkey : ℕ
  pub signaled : Bool
  pub poll_completion : Bool

abbrev pub first_stamp : ViewStamp
first_stamp = record { view_id = 1; req_id = 0 }

unfoldable pub init_consensus_comp : ℕ → ℕ → View → ConsensusComponent
init_consensus_comp node_id group_size cur_view = record {
  my_role = if cur_view.leader_id == node_id then leader else secondary;
  node_id = node_id;
  group_size = group_size;
  cur_view = cur_view;
  highest_seen_vs = first_stamp;
  highest_to_commit_vs = first_stamp;
  highest_committed_vs = first_stamp;
}

-- The address that an RDMA write to `ep` at byte `offset` of the remote log goes to, with the flags
-- that its send counter asks for.
unfoldable pub send_to : ℕ → ℕ → ℕ → Endpoint → Send
send_to server_id len offset ep = record {
  server_id = server_id;
  len = len;
  raddr = ep.raddr + offset;
  rkey = ep.rkey;
  signaled = ep.send_count % s_depth == 0;
  poll_completion = ep.send_count % s_depth == 4095;
}

-- `(*send_count_ptr)++`
unfoldable pub count_send : Endpoint → Endpoint
count_send ep = record ep { send_count = u32 (ep.send_count + 1) }
