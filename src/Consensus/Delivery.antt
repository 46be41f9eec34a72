-- ===== src/Consensus/Delivery.antt =====
-- What the leader writes to a replica is what the replica finds, stores and acknowledges.
use native.Mathlib.Omega.{arith}
use rdma_paxos.Prelude.{
  ℕ, ◌+◌, ◌^◌, ◌<◌, ◌≡◌, ◌≢◌, ◌==◌, refl, sym, subst, ap, ◌∙◌, if◌then◌else◌, true, List, length,
  some, ℤ, u64, update, Option,
}
use rdma_paxos.ViewStamp.{ViewStamp}
use rdma_paxos.Log.{
  LogEntry, DareLog, zero_stamp, log_get_entry, log_fit_entry_header, log_entry_len, write_entry,
}
use rdma_paxos.Db.{BerkeleyDb, RequestRecord, store_record, retrieve_record}
use rdma_paxos.Consensus.Types.{ConsensusComponent, ServerData, Send, p_nop, p_tcp_connect}
use rdma_paxos.Consensus.Leader.{
  Reserved, get_next_view_stamp, reserve, place_entry, submit_entry, fill_entry, finish_entry,
  record_of,
}
use rdma_paxos.Consensus.Replica.{is_complete, ReplicaState, Accepted, accept_round, overwritten}
use rdma_paxos.Consensus.Apply.{IsBounded}
use rdma_paxos.Consensus.Flowing.{IsWritable}
use rdma_paxos.Consensus.Received.{Delivered, round-Delivered}

-- Two logs of the same length that have been written up to the same place put the next entry at the
-- same offset.
same_place :
    (log log' : DareLog) (n : ℕ)
    → log'.len ≡ log.len
    → log'.end ≡ log.end
    → log_get_entry log' log'.end ≡ (place_entry log n).tail
unfolding log_get_entry place_entry log_fit_entry_header
same_place log log' n el ee = rw (el, ee) refl

module _ (bdb : BerkeleyDb) (ug : ViewStamp → ℕ) (get_output_hash : ℕ → ℤ → ℕ) where
  -- The record of a request with the data `bs`.
  abbrev pub request : ConsensusComponent → (type : ℕ) → ViewStamp → List ℕ → RequestRecord
  request comp type clt_id bs = record {
    data_size = length bs + 1;
    type = type;
    clt_id =
        if type == p_nop
        then zero_stamp
        else if type == p_tcp_connect
        then get_next_view_stamp comp
        else clt_id;
    bytes = bs;
  }

  -- What the write of the leader makes of the memory of a replica.
  abbrev pub received : ReplicaState bdb → ServerData → Reserved → ReplicaState bdb
  received s srv r =
      overwritten bdb ug get_output_hash s
        (update s.srv.log.entries srv.log.tail (srv.log.entries r.at))

  module _ (comp : ConsensusComponent) (srv : ServerData) (db : Option (BerkeleyDb.Handle bdb))
      (type : ℕ) (clt_id : ViewStamp) (bs : List ℕ) where
    -- The call of the leader, and the server data after the writes.
    abbrev pub reserved : Reserved × ConsensusComponent × ServerData
    reserved = reserve comp srv (length bs) type clt_id

    abbrev pub submitted : Option (List Send) × ServerData × Option (BerkeleyDb.Handle bdb)
    submitted = submit_entry bdb reserved.1 reserved.2 db reserved.0 type (some bs)

    -- The entry that the call fills and writes.
    abbrev filled : LogEntry
    filled = fill_entry reserved.1 reserved.0 type (some bs) (reserved.2.log.entries reserved.0.at)

    filled-size : length bs + 1 < 2 ^ 64 → filled.data_size ≡ length bs + 1
    unfolding reserve place_entry fill_entry
    filled-size fits = ground arith

    filled-request : length bs + 1 < 2 ^ 64 → record_of filled ≡ request comp type clt_id bs
    unfolding reserve fill_entry record_of
    filled-request fits =
        ap (λ n. record (request comp type clt_id bs) { data_size = n }) (filled-size fits)

    filled_complete : length bs + 1 < 2 ^ 64 → is_complete (finish_entry filled) ≡ true
    unfolding finish_entry is_complete
    filled_complete fits = ground (arith, filled-size fits)

    filled-end :
        u64 (reserved.2.log.tail + log_entry_len (finish_entry filled)) ≡ reserved.2.log.end
    unfolding reserve place_entry fill_entry finish_entry log_entry_len
    filled-end = ground arith

    submitted-stored :
        (h : BerkeleyDb.Handle bdb)
        → IsWritable bdb
        → db ≡ some h
        → (retrieve_record bdb submitted.2 reserved.0.record_no ≡ (0, some (record_of filled)))
          × (submitted.2 ≡ (store_record bdb db reserved.0.record_no (record_of filled)).1)
          × (submitted.1 ≡ record reserved.2 {
            log = write_entry reserved.2.log reserved.0.at (finish_entry filled);
          })
    unfolding submit_entry store_record retrieve_record
    submitted-stored h puts e =
        let ok = puts h reserved.0.record_no (record_of filled) in
        (
          rw (e, ok, submit_entry, store_record, retrieve_record)
              (bdb.get-put_self h reserved.0.record_no (record_of filled) ok),
          rw (e, ok, submit_entry, store_record) refl,
          rw (e, ok, submit_entry, store_record) refl,
        )

    -- The server data of the leader with the entry written.
    abbrev written : ServerData
    written = record reserved.2 {
      log = write_entry reserved.2.log reserved.0.at (finish_entry filled);
    }

    -- What a replica does with `w` of the leader.
    abbrev pub Gets : ReplicaState bdb → ServerData → Type 0
    Gets s w =
        (a : Accepted bdb) × (accept_round bdb ug get_output_hash (received s w reserved.0)
          ≡ some a)
        × Delivered bdb ug get_output_hash reserved.0.next comp.node_id
            (request comp type clt_id bs) w.log.tail w.log.end s.comp s.srv.log.len s.db
            s.srv.servers a

    arrives :
        (s : ReplicaState bdb)
        → (received s written reserved.0).srv.log.entries reserved.2.log.tail ≡ finish_entry filled
    arrives s = ground arith

    written-Gets :
        (s : ReplicaState bdb) (h : BerkeleyDb.Handle bdb)
        → IsWritable bdb
        → s.db ≡ some h
        → length bs + 1 < 2 ^ 64
        → s.srv.log.len ≡ srv.log.len
        → s.srv.log.end ≡ srv.log.end
        → s.comp.cur_view.leader_id ≢ s.comp.node_id
        → IsBounded s.comp.highest_committed_vs
        → IsBounded comp.highest_committed_vs
        → Gets s written
    unfolding reserve fill_entry finish_entry record_of
    written-Gets s h puts open_db fits len end follows bounded can =
        let (a, run, d) =
          round-Delivered bdb ug get_output_hash (received s written reserved.0) h
            reserved.2.log.tail (finish_entry filled) puts open_db follows bounded can
            (same_place srv.log (received s written reserved.0).srv.log (length bs) len end)
            (arrives s) (filled_complete fits) in
        (
          a,
          run,
          subst
              (λ k.
                Delivered bdb ug get_output_hash reserved.0.next comp.node_id k reserved.2.log.tail
                  reserved.2.log.end s.comp s.srv.log.len s.db s.srv.servers a)
              (filled-request fits)
              (subst
                (λ e.
                  Delivered bdb ug get_output_hash reserved.0.next comp.node_id (record_of filled)
                    reserved.2.log.tail e s.comp s.srv.log.len s.db s.srv.servers a)
                filled-end d),
        )

    -- The leader stores the record of the request.
    pub submitted-put :
        (h : BerkeleyDb.Handle bdb)
        → IsWritable bdb
        → db ≡ some h
        → length bs + 1 < 2 ^ 64
        → submitted.2 ≡ (store_record bdb db reserved.0.record_no (request comp type clt_id bs)).1
    submitted-put h puts e fits =
        let (kept, put, written_is) = submitted-stored h puts e in
        put ∙ ap (λ k. (store_record bdb db reserved.0.record_no k).1) (filled-request fits)

    pub submitted-len :
        (h : BerkeleyDb.Handle bdb)
        → IsWritable bdb
        → db ≡ some h
        → submitted.1.log.len ≡ srv.log.len
    unfolding reserve place_entry
    submitted-len h puts e =
        let (kept, put, written_is) = submitted-stored h puts e in ap (λ w. w.log.len) written_is

    -- The leader serves a request whose size fits a `size_t`, and a replica that does not lead and
    -- whose log has the same length and end gets the write. Both databases are open and take every
    -- record, and the committed stamps of both are bounded. Then the next round of the replica ends,
    -- stores the record of the request under the number under which the leader has stored it,
    -- leaves its log with the end that the log of the leader has, and sends the leader an
    -- acknowledgement that counts for the request, to the slot of this node in the entry at the
    -- tail.
    pub submit_entry-accept_round :
        (s : ReplicaState bdb) (h h' : BerkeleyDb.Handle bdb)
        → IsWritable bdb
        → db ≡ some h
        → s.db ≡ some h'
        → length bs + 1 < 2 ^ 64
        → s.srv.log.len ≡ srv.log.len
        → s.srv.log.end ≡ srv.log.end
        → s.comp.cur_view.leader_id ≢ s.comp.node_id
        → IsBounded s.comp.highest_committed_vs
        → IsBounded comp.highest_committed_vs
        → (retrieve_record bdb submitted.2 reserved.0.record_no
            ≡ (0, some (request comp type clt_id bs)))
          × Gets s submitted.1
    submit_entry-accept_round s h h' puts open_db open_db' fits len end follows bounded can =
        let (kept, put, written_is) = submitted-stored h puts open_db in
        (
          kept ∙ ap (λ k. (0, some k)) (filled-request fits),
          subst (Gets s) (sym written_is)
              (written-Gets s h' puts open_db' fits len end follows bounded can),
        )
