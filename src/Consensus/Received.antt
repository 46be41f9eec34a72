-- ===== src/Consensus/Received.antt =====
-- One round of a replica at a complete entry.
use native.Mathlib.Omega.{arith}
use rdma_paxos.Prelude.{
  ℕ, ◌+◌, ◌*◌, ◌≡◌, ◌≢◌, ◌==◌, refl, sym, subst, ap, ◌∙◌, true, false, List, some, ℤ, u32, u64,
  Option,
}
use rdma_paxos.ViewStamp.{ViewStamp, vstol}
use rdma_paxos.Log.{
  LogEntry, AcceptAck, entries_offset, accept_ack_size, log_get_entry, log_entry_len,
}
use rdma_paxos.Db.{BerkeleyDb, RequestRecord, store_record, retrieve_record}
use rdma_paxos.Consensus.Types.{ConsensusComponent, Endpoint, Send, send_to}
use rdma_paxos.Consensus.Quorum.{acks}
use rdma_paxos.Consensus.Leader.{record_of}
use rdma_paxos.Consensus.Replica.{
  apply_committed, is_complete, ReplicaState, Accepted, accept_entry, accept_round, accept_at, see,
  located, acknowledge, make_reply,
}
use rdma_paxos.Consensus.Apply.{IsBounded, apply_committed-Applies}
use rdma_paxos.Consensus.Flowing.{IsWritable}

module _ (bdb : BerkeleyDb) (ug : ViewStamp → ℕ) (get_output_hash : ℕ → ℤ → ℕ) where
  abbrev pub place : ReplicaState bdb → ℕ
  place s = log_get_entry s.srv.log s.srv.log.end

  accept_entry_complete :
      (s : ReplicaState bdb) (at : ℕ)
      → IsBounded s.comp.highest_committed_vs
      → IsBounded (s.srv.log.entries at).req_canbe_exed
      → (indices : List ℕ) × (new : ViewStamp) × IsBounded new
        × (accept_entry bdb ug get_output_hash s at
            ≡ some (accept_at bdb ug get_output_hash s at new indices))
  unfolding accept_entry
  accept_entry_complete s at bounded can =
      let (indices, e, p) =
        apply_committed-Applies s.comp.highest_committed_vs (s.srv.log.entries at).req_canbe_exed
          bounded can in
      (
        indices,
        (apply_committed s.comp.highest_committed_vs (s.srv.log.entries at).req_canbe_exed).1,
        p.bounded,
        rw (e, accept_entry),
      )

  -- A round at a complete entry does all that `accept_at` says.
  accept_round_complete :
      (s : ReplicaState bdb)
      → s.comp.cur_view.leader_id ≢ s.comp.node_id
      → is_complete (s.srv.log.entries (place s)) ≡ true
      → IsBounded s.comp.highest_committed_vs
      → IsBounded (s.srv.log.entries (place s)).req_canbe_exed
      → (indices : List ℕ) × (new : ViewStamp) × IsBounded new
        × (accept_round bdb ug get_output_hash s
            ≡ some (
                accept_at bdb ug get_output_hash
                  (located bdb ug get_output_hash s)
                  (place s)
                  new
                  indices))
  unfolding accept_round
  accept_round_complete s follows full bounded can =
      let other : (s.comp.cur_view.leader_id == s.comp.node_id) ≡ false = ground (arith, follows) in
      rw (other, full)
        (accept_entry_complete (located bdb ug get_output_hash s) (place s) bounded can)

  -- What a node has done with an entry of the stamp `next` of the leader `lead`.
  pub record Delivered (next : ViewStamp) (lead : ℕ) (kept : RequestRecord) (at end : ℕ)
      (comp : ConsensusComponent) (len : ℕ) (db : Option (BerkeleyDb.Handle bdb))
      (servers : ℕ → Endpoint) (a : Accepted bdb) : Type 0 where
    pub stored : retrieve_record bdb a.state.db (vstol next) ≡ (0, some kept)
    pub ends : a.state.srv.log.end ≡ end
    pub replied :
        (send : Send) × (ack : AcceptAck) × (a.reply ≡ some (send, ack))
        × (send.server_id ≡ lead)
        × (send.raddr
            ≡ (servers lead).raddr + u32 (entries_offset + at + accept_ack_size * comp.node_id))
        × (acks next ack ≡ true)
        × (ack.node_id ≡ comp.node_id)
    pub put : a.state.db ≡ (store_record bdb db (vstol next) kept).1
    pub same_len : a.state.srv.log.len ≡ len
    pub same_id : a.state.comp.node_id ≡ comp.node_id
    pub same_view : a.state.comp.cur_view ≡ comp.cur_view
    pub bounded : IsBounded a.state.comp.highest_committed_vs

  stored_back :
      (db : Option (BerkeleyDb.Handle bdb)) (h : BerkeleyDb.Handle bdb) (key : ℕ)
      (kept : RequestRecord)
      → IsWritable bdb
      → db ≡ some h
      → retrieve_record bdb (store_record bdb db key kept).1 key ≡ (0, some kept)
  unfolding store_record retrieve_record
  stored_back db h key kept puts e = rw e (bdb.get-put_self h key kept (puts h key kept))

  see_still :
      (comp : ConsensusComponent) (vs : ViewStamp)
      → ((see comp vs).node_id ≡ comp.node_id) × ((see comp vs).cur_view ≡ comp.cur_view)
  unfolding see
  see_still comp vs = (ground arith, ground arith)

  accept_at-Delivered :
      (s : ReplicaState bdb) (h : BerkeleyDb.Handle bdb) (at : ℕ) (new : ViewStamp)
      (indices : List ℕ)
      → IsWritable bdb
      → s.db ≡ some h
      → IsBounded new
      → let entry = s.srv.log.entries at in
        Delivered entry.msg_vs entry.node_id
          (record_of entry)
          at
          (u64 (at + log_entry_len entry))
          s.comp
          s.srv.log.len
          s.db
          s.srv.servers
          (accept_at bdb ug get_output_hash (located bdb ug get_output_hash s) at new indices)
  unfolding acknowledge make_reply acks send_to
  accept_at-Delivered s h at new indices puts e bounded = record {
    stored =
        stored_back s.db h (vstol (s.srv.log.entries at).msg_vs) (record_of (s.srv.log.entries at))
          puts e;
    ends = refl;
    replied = (_, _, refl, refl, refl, ground arith, refl);
    put = refl;
    same_len = refl;
    same_id = (see_still s.comp (s.srv.log.entries at).msg_vs).0;
    same_view = (see_still s.comp (s.srv.log.entries at).msg_vs).1;
    bounded = bounded;
  }

  pub round-Delivered :
      (s : ReplicaState bdb) (h : BerkeleyDb.Handle bdb) (at : ℕ) (entry : LogEntry)
      → IsWritable bdb
      → s.db ≡ some h
      → s.comp.cur_view.leader_id ≢ s.comp.node_id
      → IsBounded s.comp.highest_committed_vs
      → IsBounded entry.req_canbe_exed
      → place s ≡ at
      → s.srv.log.entries at ≡ entry
      → is_complete entry ≡ true
      → (a : Accepted bdb) × (accept_round bdb ug get_output_hash s ≡ some a)
        × Delivered entry.msg_vs entry.node_id
            (record_of entry)
            at
            (u64 (at + log_entry_len entry))
            s.comp
            s.srv.log.len
            s.db
            s.srv.servers
            a
  round-Delivered s h at entry puts db follows bounded can here there full =
      let e : s.srv.log.entries (place s) ≡ entry = ap s.srv.log.entries here ∙ there in
      let (indices, new, fine, run) =
        accept_round_complete s follows (rw e full) bounded
          (subst IsBounded (ap (λ n. n.req_canbe_exed) (sym e)) can) in
      let a =
        accept_at bdb ug get_output_hash (located bdb ug get_output_hash s) (place s) new indices in
      (
        a,
        run,
        subst
            (λ n.
              Delivered entry.msg_vs entry.node_id (record_of entry) n
                (u64 (n + log_entry_len entry)) s.comp s.srv.log.len s.db s.srv.servers a)
            here
            (subst
              (λ n.
                Delivered n.msg_vs n.node_id (record_of n) (place s)
                  (u64 (place s + log_entry_len n)) s.comp s.srv.log.len s.db s.srv.servers a)
              e (accept_at-Delivered s h (place s) new indices puts db fine)),
      )
