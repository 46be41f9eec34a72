-- ===== src/Consensus/Wrapped.antt =====
-- What a replica does when its log has come to the end and old entries stand at the beginning.
use native.Mathlib.Omega.{arith}
use rdma_paxos.Prelude.{
  ℕ, ◌+◌, ◌-◌, ◌*◌, ◌≤◌, ◌<◌, ◌≡◌, ◌≢◌, refl, subst, ◌∙◌, true, some, ℤ, sub64, u64,
}
use rdma_paxos.ViewStamp.{ViewStamp}
use rdma_paxos.Log.{
  LogEntry, DareLog, log_size, entry_header_size, log_get_entry, log_fit_entry_header,
  log_entry_len,
}
use rdma_paxos.Db.{BerkeleyDb}
use rdma_paxos.Consensus.Leader.{place_entry, record_of}
use rdma_paxos.Consensus.Replica.{is_complete, ReplicaState, Accepted, accept_round}
use rdma_paxos.Consensus.Apply.{IsBounded}
use rdma_paxos.Consensus.Flowing.{IsWritable}
use rdma_paxos.Consensus.Received.{Delivered, round-Delivered}

-- A log that is written up to its end: not even a header fits.
pub record IsFull (log : DareLog) : Type 0 where
  pub size : log.len ≡ log_size
  pub inside : log.end ≤ log.len
  pub narrow : log.len - log.end < entry_header_size

log_get_entry_full : (log : DareLog) → IsFull log → log_get_entry log log.end ≡ 0
unfolding log_get_entry log_fit_entry_header
log_get_entry_full log f = ground (arith, room)
  where
    room : sub64 log.len log.end ≡ log.len - log.end
    room = omega (arith, f.size, f.inside)

place_entry_full : (log : DareLog) (n : ℕ) → IsFull log → (place_entry log n).tail ≡ 0
unfolding place_entry log_fit_entry_header
place_entry_full log n f = ground (arith, room)
  where
    room : sub64 log.len log.end ≡ log.len - log.end
    room = omega (arith, f.size, f.inside)

-- An entry leaves room for another header behind it.
pub record IsShort (entry : LogEntry) : Type 0 where
  pub fits : entry.data_size + 2 * entry_header_size ≤ log_size

short_len :
    (entry : LogEntry)
    → IsShort entry
    → u64 (0 + log_entry_len entry) ≡ entry_header_size + entry.data_size
unfolding log_entry_len
short_len entry short = omega (arith, short.fits)

log_get_entry_short :
    (log : DareLog) (end : ℕ)
    → log.len ≡ log_size
    → log.end ≡ end
    → end + entry_header_size ≤ log_size
    → log_get_entry log log.end ≡ end
unfolding log_get_entry log_fit_entry_header
log_get_entry_short log end size here fits = ground (arith, room)
  where
    room : sub64 log.len log.end ≡ log.len - log.end
    room = omega (arith, size, here, fits)

module _ (bdb : BerkeleyDb) (ug : ViewStamp → ℕ) (get_output_hash : ℕ → ℤ → ℕ) where
  abbrev old_entry : ReplicaState bdb → LogEntry
  old_entry s = s.srv.log.entries 0

  -- The log of a replica that does not lead is written up to its end, and at its beginning there is
  -- still a complete entry of the first pass, short enough to have room for a header behind it. The
  -- database is open and takes every record, and the committed stamps are bounded. Then a round of
  -- the replica, before any write of the leader, accepts that entry once more: it stores its record,
  -- acknowledges it and moves the end past it. The leader, whose log is also written up to its end,
  -- puts its next entry at the beginning, while the replica looks for it behind the old one.
  pub accept_round-wrapped :
      (s : ReplicaState bdb) (h : BerkeleyDb.Handle bdb) (leader_log : DareLog) (n : ℕ)
      → IsWritable bdb
      → s.db ≡ some h
      → s.comp.cur_view.leader_id ≢ s.comp.node_id
      → IsBounded s.comp.highest_committed_vs
      → IsBounded (old_entry s).req_canbe_exed
      → is_complete (old_entry s) ≡ true
      → IsShort (old_entry s)
      → IsFull s.srv.log
      → IsFull leader_log
      → (a : Accepted bdb) × (accept_round bdb ug get_output_hash s ≡ some a)
        × Delivered bdb ug get_output_hash
            (old_entry s).msg_vs
            (old_entry s).node_id
            (record_of (old_entry s))
            0
            (entry_header_size + (old_entry s).data_size)
            s.comp
            s.srv.log.len
            s.db
            s.srv.servers
            a
        × ((place_entry leader_log n).tail ≡ 0)
        × (log_get_entry a.state.srv.log a.state.srv.log.end
            ≡ entry_header_size + (old_entry s).data_size)
  accept_round-wrapped s h leader_log n puts db follows bounded can full short at_end leader_end =
      let entry = old_entry s in
      let (a, run, d) =
        round-Delivered bdb ug get_output_hash s h 0 entry puts db follows bounded can
          (log_get_entry_full s.srv.log at_end) refl full in
      let len = short_len entry short in
      let ends : a.state.srv.log.end ≡ entry_header_size + entry.data_size = d.ends ∙ len in
      (
        a,
        run,
        subst
            (λ e.
              Delivered bdb ug get_output_hash entry.msg_vs entry.node_id (record_of entry) 0 e
                s.comp s.srv.log.len s.db s.srv.servers a)
            len d,
        place_entry_full leader_log n leader_end,
        log_get_entry_short a.state.srv.log (entry_header_size + entry.data_size)
            (d.same_len ∙ at_end.size) ends (omega (arith, short.fits)),
      )
