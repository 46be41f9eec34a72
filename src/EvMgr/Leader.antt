-- ===== src/EvMgr/Leader.antt =====
-- The hooks of the event manager on the leader: a connection is accepted, data is read from it, a
-- datagram comes, a connection is closed. A thread of the event manager itself is `internal`.
use rdma_paxos.Prelude.{
  ℕ, Bool, true, false, ◌&&◌, ◌==◌, if◌then◌else◌, List, ◌∷◌, Option, none, some, take,
}
use rdma_paxos.ViewStamp.{ViewStamp}
use rdma_paxos.Log.{zero_stamp}
use rdma_paxos.Db.{BerkeleyDb}
use rdma_paxos.Consensus.Types.{p_tcp_connect, p_udp_connect, p_send, p_close, p_nop}
use rdma_paxos.Output.Library.{OutputLib}
use rdma_paxos.Output.Manager.{OutputManager, del_output}
use rdma_paxos.EvMgr.Maps.{hash_find, hash_del, same_bytes, c_string}
use rdma_paxos.EvMgr.Rsm.{Node, rsm_op}

module _ (bdb : BerkeleyDb) (lib : OutputLib) where
  -- What the leader's hooks use of `event_manager`, with the node and the output manager.
  pub record LeaderMgr : Type 0 where
    pub node_id : ℕ
    pub rsm : Bool
    pub check_output : Bool
    pub leader_tcp_map : List (ℕ × ViewStamp)
    pub leader_udp_map : List (List ℕ × ViewStamp)
    pub con_node : Node bdb
    pub output : OutputManager lib

  abbrev pub leads : LeaderMgr → Bool
  leads m = m.node_id == m.con_node.comp.cur_view.leader_id

  -- The part of `mgr_on_accept` for the leader. The new pair is in the table before the call and
  -- gets its stamp from it.
  unfoldable pub mgr_on_accept : (internal : Bool) → LeaderMgr → ℕ → LeaderMgr
  mgr_on_accept true m fd = m
  mgr_on_accept false m fd =
      let (vs, at, node) = rsm_op bdb m.con_node 0 none p_tcp_connect zero_stamp in
      if leads m
      then record m { leader_tcp_map = (fd, vs) ∷ m.leader_tcp_map; con_node = node }
      else m

  -- `none` if the descriptor is in no pair: the null pointer is used.
  unfoldable pub server_side_on_read :
      (internal is_socket : Bool) → LeaderMgr → List ℕ → ℕ → ℕ → Option LeaderMgr
  server_side_on_read true is_socket m buf ret fd = some m
  server_side_on_read false is_socket m buf ret fd =
      if leads m && is_socket && m.rsm
      then elim (hash_find ◌==◌ m.leader_tcp_map fd) [
        | none ↦ none
        | some vs ↦
            let (vs', at, node) = rsm_op bdb m.con_node ret (some buf) p_send vs in
            some (record m { con_node = node })
      ]
      else some m

  -- The key is the string in the first 14 bytes of the address.
  unfoldable pub mgr_on_recvfrom : (internal : Bool) → LeaderMgr → List ℕ → ℕ → List ℕ → LeaderMgr
  mgr_on_recvfrom true m buf ret sa_data = m
  mgr_on_recvfrom false m buf ret sa_data =
      let key = c_string (take 14 sa_data) in
      if leads m
      then elim (hash_find same_bytes m.leader_udp_map key) [
        | none ↦
            let (vs, at, node) = rsm_op bdb m.con_node 0 none p_udp_connect zero_stamp in
            let (vs', at', node') = rsm_op bdb node ret (some buf) p_send vs in
            record m { leader_udp_map = (key, vs) ∷ m.leader_udp_map; con_node = node' }
        | some vs ↦
            let (vs', at, node) = rsm_op bdb m.con_node ret (some buf) p_send vs in
            record m { con_node = node }
      ]
      else m

  unfoldable pub mgr_on_close : (internal : Bool) → LeaderMgr → ℕ → LeaderMgr
  mgr_on_close true m fd = m
  mgr_on_close false m fd =
      let m' : LeaderMgr = record m { output = (del_output lib m.output fd).1 } in
      if leads m
      then elim (hash_find ◌==◌ m.leader_tcp_map fd) [
        | none ↦ m'
        | some vs ↦
            let (vs', at, node) = rsm_op bdb m.con_node 0 none p_close vs in
            let (vs'', at', node') = rsm_op bdb node 0 none p_nop zero_stamp in
            record m' { leader_tcp_map = hash_del ◌==◌ m.leader_tcp_map fd; con_node = node' }
      ]
      else m'
