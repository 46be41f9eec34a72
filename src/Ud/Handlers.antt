-- ===== src/Ud/Handlers.antt =====
-- The messages of dare_ibv_ud.h and the handlers of dare_ibv_ud.c.
use rdma_paxos.Log.{max_server_count}
use rdma_paxos.Prelude.{
  Option, none, some, ltb, if◌then◌else◌, ℕ, ◌==◌, ltb, if◌then◌else◌, List, [], ◌∷◌, u32, update,
  pos, negsuc,
}
use rdma_paxos.Consensus.Types.{Endpoint}
use rdma_paxos.Rc.Verbs.{Verbs, IbDevice}
use rdma_paxos.Rc.Connect.{rc_connect_server}

-- The message types of RDMA/src/include/rdma/dare.h.
abbrev pub rc_syn : ℕ
rc_syn = 1

abbrev pub rc_synack : ℕ
rc_synack = 2

abbrev pub join : ℕ
join = 211

abbrev pub destroy : ℕ
destroy = 213

abbrev pub cfg_reply : ℕ
cfg_reply = 214

-- A received buffer, by the fields of `rc_syn_t`; what was not sent reads as 0.
pub record Datagram : Type 0 where
  pub type : ℕ
  pub length : ℕ
  pub raddr : ℕ
  pub rkey : ℕ
  pub idx : ℕ
  pub lid : ℕ
  pub gid : List ℕ
  pub qpns : ℕ → ℕ

-- `idx` of `reconf_rep_t` and of `rc_destroy_t`: after the header, where `rc_syn_t` has the low word
-- of `log_rm.raddr`.
unfoldable pub short_idx : Datagram → ℕ
short_idx msg = u32 msg.raddr

-- A message of the header `type` and this `idx` after it.
abbrev pub short_message : (type idx : ℕ) → Datagram
short_message type idx = record {
  type = type;
  length = 0;
  raddr = idx;
  rkey = 0;
  idx = 0;
  lid = 0;
  gid = [];
  qpns = λ i. 0;
}

-- What the handlers read of the server: its index, the size of the group, the number of its queue
-- pair for every server, the device, and the result of `ibv_query_gid`.
pub record Local : Type 0 where
  pub idx : ℕ
  pub size : ℕ
  pub qp_num : ℕ → ℕ
  pub dev : IbDevice
  pub queried_gid : List ℕ

-- What they write, with the device.
pub record UdState (D : Type 0) : Type 0 where
  pub servers : ℕ → Endpoint
  -- The leader in `cur_view`, which is a null pointer until something sets it: none.
  pub cur_view : Option ℕ
  pub device : D

unfoldable pub my_gid : Local → List ℕ
my_gid me = elim me.dev.gid_idx [
  | pos n ↦ me.queried_gid
  | negsuc n ↦ 0 ∷ 0 ∷ 0 ∷ 0 ∷ 0 ∷ 0 ∷ 0 ∷ 0 ∷ 0 ∷ 0 ∷ 0 ∷ 0 ∷ 0 ∷ 0 ∷ 0 ∷ 0 ∷ []
]

-- The endpoint with the data of the message and the number of the remote queue pair.
abbrev pub with_peer : Datagram → (qpn : ℕ) → Endpoint → Endpoint
with_peer msg qpn ep = record ep { rc_connected = 1; qpn = qpn; raddr = msg.raddr; rkey = msg.rkey }

-- The common part of `handle_rc_syn` and `handle_rc_synack`, with the number of the remote queue
-- pair: the connection is marked as established before it is made, and stays so.
unfoldable pub establish :
    {D : Type 0} → Verbs D → Local → Datagram → (qpn : ℕ) → UdState D → UdState D
establish v me msg qpn st =
    let ep = with_peer msg qpn (st.servers msg.idx) in
    let (rc, ep', d') = rc_connect_server v me.dev msg.idx ep msg.lid msg.gid st.device in
    if (st.servers msg.idx).rc_connected == 0
    then record st { servers = update st.servers msg.idx ep'; device = d' }
    else st

-- The reply of `handle_rc_syn`; its length is `sizeof(rc_syn_t) + sizeof(uint32_t)`.
unfoldable pub synack_of : Local → Datagram → Datagram
synack_of me msg = record {
  type = rc_synack;
  length = 60;
  raddr = me.dev.lcl_raddr;
  rkey = me.dev.lcl_rkey;
  idx = me.idx;
  lid = me.dev.lid;
  gid = my_gid me;
  qpns = λ i. if i == 0 then me.qp_num msg.idx else 0;
}

unfoldable pub handle_rc_syn :
    {D : Type 0} → Verbs D → Local → Datagram → UdState D → Datagram × UdState D
handle_rc_syn v me msg st = (synack_of me msg, establish v me msg (msg.qpns me.idx) st)

unfoldable pub handle_rc_synack : {D : Type 0} → Verbs D → Local → Datagram → UdState D → UdState D
handle_rc_synack v me msg st = establish v me msg (msg.qpns 0) st

unfoldable pub handle_server_join_request : Local → Datagram
handle_server_join_request me = short_message cfg_reply me.idx

-- None: a write through the null pointer.
unfoldable pub handle_server_join_reply : {D : Type 0} → Datagram → UdState D → Option (UdState D)
handle_server_join_reply msg st = elim (st.cur_view) [
  | none ↦ none
  | some leader_id ↦ some (record st { cur_view = some (short_idx msg) })
]

-- None: the index is outside the array of servers.
unfoldable pub handle_server_destroy_request :
    {D : Type 0} → Datagram → UdState D → Option (UdState D)
handle_server_destroy_request msg st =
    let ep : Endpoint = record (st.servers (short_idx msg)) { rc_connected = 0 } in
    if ltb (short_idx msg) max_server_count
    then some (record st { servers = update st.servers (short_idx msg) ep })
    else none

-- The message of `ud_exchange_rc_info`; the length in its header is not set.
unfoldable pub ud_exchange_rc_info : Local → Datagram
ud_exchange_rc_info me = record {
  type = rc_syn;
  length = 0;
  raddr = me.dev.lcl_raddr;
  rkey = me.dev.lcl_rkey;
  idx = me.idx;
  lid = me.dev.lid;
  gid = my_gid me;
  qpns = λ i. if ltb i me.size then me.qp_num i else 0;
}

unfoldable pub ud_join_cluster : Datagram
ud_join_cluster = short_message join 0

unfoldable pub ud_destroy_request : Local → Datagram
ud_destroy_request me = short_message destroy me.idx
