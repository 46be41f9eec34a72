-- ===== src/EvMgr/Session.antt =====
-- A session of a client, from the leader's hooks through the stored records to the replay on a
-- replica.
use rdma_paxos.Prelude.{ℕ, false, List, ◌∷◌, Option, none, some}
use rdma_paxos.ViewStamp.{ViewStamp}
use rdma_paxos.Log.{zero_stamp}
use rdma_paxos.Db.{BerkeleyDb}
use rdma_paxos.Consensus.Types.{p_tcp_connect, p_close, p_nop}
use rdma_paxos.Consensus.Leader.{get_next_view_stamp}
use rdma_paxos.Output.Library.{OutputLib}
use rdma_paxos.EvMgr.Rsm.{Node, rsm_op}
use rdma_paxos.EvMgr.Leader.{LeaderMgr, mgr_on_accept, mgr_on_close}
use rdma_paxos.EvMgr.Serving.{reads}

module _ (bdb : BerkeleyDb) (lib : OutputLib) where
  -- A client connects, sends the data and closes.
  unfoldable pub session : LeaderMgr bdb lib → List (List ℕ) → ℕ → Option (LeaderMgr bdb lib)
  session m datas fd = elim (reads bdb lib (mgr_on_accept bdb lib false m fd) datas fd) [
    | none ↦ none
    | some m' ↦ some (mgr_on_close bdb lib false m' fd)
  ]

  -- The stamp that the connection gets.
  abbrev pub stamp_of : LeaderMgr bdb lib → ViewStamp
  stamp_of m = get_next_view_stamp m.con_node.comp

  abbrev after_accept : LeaderMgr bdb lib → ℕ → LeaderMgr bdb lib
  after_accept m fd = record m {
    leader_tcp_map = (fd, stamp_of m) ∷ m.leader_tcp_map;
    con_node = (rsm_op bdb m.con_node 0 none p_tcp_connect zero_stamp).2;
  }

  closed_node : LeaderMgr bdb lib → ViewStamp → Node bdb
  closed_node m vs =
      (rsm_op bdb (rsm_op bdb m.con_node 0 none p_close vs).2 0 none p_nop zero_stamp).2
