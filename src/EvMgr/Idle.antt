-- ===== src/EvMgr/Idle.antt =====
-- A call of `rsm_op` on a node all of whose stamps are committed returns, and leaves such a node.
use native.Mathlib.Omega.{arith}
use rdma_paxos.Prelude.{
  ℕ, ◌+◌, ◌≡◌, ◌∙◌, refl, ap, sym, subst, true, false, List, [], ◌∷◌, ◌++◌, Option, some, map, u32,
}
use mathlib.Core.List.{map-append}
use rdma_paxos.ViewStamp.{ViewStamp}
use rdma_paxos.Db.{BerkeleyDb, RequestRecord}
use rdma_paxos.Consensus.Types.{ConsensusComponent, ServerData}
use rdma_paxos.Consensus.Leader.{
  get_next_view_stamp, reserve, fill_entry, record_of, submit_entry, may_commit, commit,
}
use rdma_paxos.Consensus.Flowing.{IsWritable, submit_entry-stored}
use rdma_paxos.Consensus.Kept.{filled_on}
use rdma_paxos.EvMgr.Rsm.{Node, rsm_op}

module _ (bdb : BerkeleyDb) where
  -- The database is open, every stamp that was given out is committed, and no call waits.
  pub record IsIdle (node : Node bdb) : Type 0 where
    pub connected : (h : BerkeleyDb.Handle bdb) × (node.db ≡ some h)
    pub even : node.comp.highest_committed_vs.req_id ≡ node.comp.highest_seen_vs.req_id
    pub goes : node.waits ≡ false

  -- The record that a call stores.
  abbrev pub stored_by : Node bdb → ℕ → Option (List ℕ) → ℕ → ViewStamp → RequestRecord
  stored_by node size payload type clt_id =
      let (r, comp', srv') = reserve node.comp node.srv size type clt_id in
      record_of (fill_entry comp' r type payload (srv'.log.entries r.at))

  -- The node after a call that has returned.
  abbrev returned : Node bdb → ℕ → Option (List ℕ) → ℕ → ViewStamp → Node bdb
  returned node size payload type clt_id =
      let (r, comp', srv') = reserve node.comp node.srv size type clt_id in
      let (sends, srv'', db') = submit_entry bdb comp' srv' node.db r type payload in
      record node {
        comp = commit comp';
        srv = srv'';
        db = db';
        records = node.records ++ (r.record_no, stored_by node size payload type clt_id) ∷ [];
      }

  passing :
      (comp : ConsensusComponent) (srv : ServerData) (size type : ℕ) (clt_id : ViewStamp)
      → comp.highest_committed_vs.req_id ≡ comp.highest_seen_vs.req_id
      → let (r, comp', srv') = reserve comp srv size type clt_id in may_commit comp' r.next ≡ true
  unfolding reserve may_commit get_next_view_stamp
  passing comp srv size type clt_id even = ground (arith, even)

  module _ (puts : IsWritable bdb) (node : Node bdb) (idle : IsIdle node) (size : ℕ)
      (payload : Option (List ℕ)) (type : ℕ) (clt_id : ViewStamp) where
    rsm_op-returned : rsm_op bdb node size payload type clt_id ≡ (
      (reserve node.comp node.srv size type clt_id).0.clt_id,
      (reserve node.comp node.srv size type clt_id).0.at,
      returned node size payload type clt_id,
    )
    unfolding rsm_op
    rsm_op-returned =
        let (r, comp', srv') = reserve node.comp node.srv size type clt_id in
        let (h, there) = idle.connected in
        let ok = (submit_entry-stored bdb comp' srv' node.db h r type payload puts there).0 in
        let passes : may_commit comp'
              ((submit_entry bdb comp' srv' node.db r type payload).1.log.entries r.at).msg_vs
            ≡ true =
          ap (may_commit comp') (filled_on bdb comp' srv' node.db r type payload)
          ∙ passing node.comp node.srv size type clt_id idle.even in
        rw (idle.goes, rsm_op, ok, passes) refl

    pub rsm_op-clt_id :
        (rsm_op bdb node size payload type clt_id).0
        ≡ (reserve node.comp node.srv size type clt_id).0.clt_id
    rsm_op-clt_id = ap (λ out. out.0) rsm_op-returned

    after : (rsm_op bdb node size payload type clt_id).2 ≡ returned node size payload type clt_id
    after = ap (λ out. out.2) rsm_op-returned

    pub rsm_op-records :
        map (λ p. p.1) (rsm_op bdb node size payload type clt_id).2.records
        ≡ map (λ p. p.1) node.records ++ stored_by node size payload type clt_id ∷ []
    rsm_op-records =
        ap (λ n. map (λ p. p.1) n.records) after
        ∙ map-append (λ p. p.1) node.records
            ((
              (reserve node.comp node.srv size type clt_id).0.record_no,
              stored_by node size payload type clt_id,
            )
              ∷ [])

    pub rsm_op-view :
        (rsm_op bdb node size payload type clt_id).2.comp.cur_view ≡ node.comp.cur_view
    unfolding reserve commit
    rsm_op-view = ap (λ n. n.comp.cur_view) after

    pub rsm_op-group_size :
        (rsm_op bdb node size payload type clt_id).2.comp.group_size ≡ node.comp.group_size
    unfolding reserve commit
    rsm_op-group_size = ap (λ n. n.comp.group_size) after

    returned-IsIdle : IsIdle (returned node size payload type clt_id)
    unfolding reserve commit get_next_view_stamp
    returned-IsIdle =
        let (r, comp', srv') = reserve node.comp node.srv size type clt_id in
        let (h, there) = idle.connected in
        record {
          connected = (submit_entry-stored bdb comp' srv' node.db h r type payload puts there).1;
          even = ap (λ q. u32 (q + 1)) idle.even;
          goes = idle.goes;
        }

    pub rsm_op-IsIdle : IsIdle (rsm_op bdb node size payload type clt_id).2
    rsm_op-IsIdle = subst IsIdle (sym after) returned-IsIdle
