-- ===== src/EvMgr/Rsm.antt =====
-- `rsm_op` of RDMA/src/replica-sys/replica.c: a whole call of `leader_handle_submit_req`, for a
-- thread that has no other call in flight beside it and whose acknowledgements arrive.
use rdma_paxos.Prelude.{ℕ, Bool, true, if◌then◌else◌, List, [], ◌∷◌, ◌++◌, Option, none, some}
use rdma_paxos.ViewStamp.{ViewStamp}
use rdma_paxos.Db.{BerkeleyDb, RequestRecord}
use rdma_paxos.Consensus.Types.{ConsensusComponent, ServerData, Send}
use rdma_paxos.Consensus.Leader.{
  Reserved, reserve, fill_entry, record_of, submit_entry, may_commit, commit,
}

module _ (bdb : BerkeleyDb) where
  open bdb use {Handle}

  -- The node, with the records that have been stored, the oldest first. `waits`: a call is in the busy
  -- wait on the committed stamp, which no other call ends; nothing that comes after it happens.
  pub record Node : Type 0 where
    pub comp : ConsensusComponent
    pub srv : ServerData
    pub db : Option Handle
    pub records : List (ℕ × RequestRecord)
    pub waits : Bool

  -- The end of a call whose store has the result `sends`: if it failed, the call is over; otherwise
  -- its record is there, and it commits or waits.
  abbrev pub ended_call :
      Node
      → ConsensusComponent
      → ServerData
      → Option Handle
      → Reserved
      → RequestRecord
      → Option (List Send)
      → Node
  ended_call node comp srv db r stored none = record node { comp = comp; srv = srv; db = db }
  ended_call node comp srv db r stored (some sends) =
      if may_commit comp (srv.log.entries r.at).msg_vs
      then record node {
        comp = commit comp;
        srv = srv;
        db = db;
        records = node.records ++ (r.record_no, stored) ∷ [];
      }
      else record {
        comp = comp;
        srv = srv;
        db = db;
        records = node.records ++ (r.record_no, stored) ∷ [];
        waits = true;
      }

  -- `clt_id` as the call leaves it, the offset of the entry, and the node.
  unfoldable pub rsm_op : Node → ℕ → Option (List ℕ) → ℕ → ViewStamp → ViewStamp × ℕ × Node
  rsm_op node size payload type clt_id =
      let (r, comp', srv') = reserve node.comp node.srv size type clt_id in
      let (sends, srv'', db') = submit_entry bdb comp' srv' node.db r type payload in
      let stored = record_of (fill_entry comp' r type payload (srv'.log.entries r.at)) in
      if node.waits
      then (clt_id, 0, node)
      else (r.clt_id, r.at, ended_call node comp' srv'' db' r stored sends)
