-- ===== src/Consensus/Tests.antt =====
-- A database in memory, a group of three nodes, and the theorems over them.
use native.Mathlib.Omega.{arith}
use rdma_paxos.Prelude.{
  ◌%◌, ◌≢◌, ◌-◌, ℕ, ◌+◌, ◌-◌, ◌≤◌, ◌<◌, ◌≡◌, ◌↔◌, refl, true, List, [], ◌∷◌, none, some, ◌==◌,
  if◌then◌else◌, count_below, u32, u64,
}
use rdma_paxos.ViewStamp.{IsStamp, vstol}
use rdma_paxos.ViewStamp.Order.{vstol_lem}
use rdma_paxos.Log.{AcceptAck, LogEntry, zero_entry, zero_stamp, log_new, max_server_count}
use rdma_paxos.Consensus.Types.{init_consensus_comp, dummy_end, p_send}
use rdma_paxos.Log.{log_add_new_entry, is_log_empty}
use rdma_paxos.Db.{store_record}
use rdma_paxos.Consensus.Quorum.{recheck, recheck_loop, acks, reached_quorum, popcount}
use rdma_paxos.Consensus.Leader.{
  recheck_until, first_votes, reserve, place_entry, get_next_view_stamp, submit_entry, may_commit,
  commit, finish_entry, fill_entry,
}
use rdma_paxos.Consensus.Votes.{has_vote, is_some, recheck_until-quorum}
use rdma_paxos.Consensus.Intersect.{quorums_intersect}
use rdma_paxos.Consensus.Replica.{ReplicaState, accept_rounds}
use rdma_paxos.Consensus.Apply.{range, accept_rounds-in_order, committed, IsBounded}
use rdma_paxos.Consensus.Threads.{
  LeaderState, Event, enter, memory, advance, run, step, enter_call, entered, advance_call,
  store_call, stored_calls, count_call, stage_after, wait_call, commit_call, edit,
}
use rdma_paxos.Consensus.InFlight.{committed_id, seen_id}
use rdma_paxos.Log.{entries_offset, DareLog, log_new, log_size, entry_header_size, log_get_entry}
use rdma_paxos.Consensus.Offsets.{place_entry-log_get_entry}
use rdma_paxos.Consensus.Sends.{to_peer, reserve-sends}
use rdma_paxos.Samples.{in_memory, node, server, stamp}
use rdma_paxos.Consensus.Flowing.{IsWritable}
use rdma_paxos.Consensus.Drain.{AllReady, first_steps, all_commit}
use rdma_paxos.Consensus.Commit.{commits_in_order, abandoned_blocks}

-- Node 1 has acknowledged the entry `n`.
abbrev one_ack : ℕ → ℕ → AcceptAck
one_ack n i =
    if i == 1
    then record { msg_vs = stamp n; node_id = 1; hash = 0 }
    else record { msg_vs = zero_stamp; node_id = 0; hash = 0 }

one_ack-member : (n i : ℕ) → (one_ack n i).node_id < 3
one_ack-member n i = ground arith

one_ack-id : (n i : ℕ) → (one_ack n i).node_id < max_server_count
one_ack-id n i = ground arith

recheck_until-quorum_example :
    (is_some (recheck_until 3 (stamp 1) (one_ack 1 ∷ []) (first_votes (node 0))) ≡ true)
    ↔ (2 ≤ count_below max_server_count (has_vote (node 0) (stamp 1) (one_ack 1 ∷ [])))
unfolding init_consensus_comp
recheck_until-quorum_example =
    recheck_until-quorum (node 0) (stamp 1) (one_ack 1) [] (one_ack-id 1, tt) (omega arith)

waited : is_some (recheck_until 3 (stamp 1) (one_ack 1 ∷ []) (first_votes (node 0))) ≡ true
unfolding recheck_until recheck recheck_loop acks first_votes reached_quorum popcount
    init_consensus_comp
waited = refl

waited_second : is_some (recheck_until 3 (stamp 2) (one_ack 2 ∷ []) (first_votes (node 2))) ≡ true
unfolding recheck_until recheck recheck_loop acks first_votes reached_quorum popcount
    init_consensus_comp
waited_second = refl

quorums_intersect_example :
    (j : ℕ) × (j < 3)
    × (has_vote (node 0) (stamp 1) (one_ack 1 ∷ []) j ≡ true)
    × (has_vote (node 2) (stamp 2) (one_ack 2 ∷ []) j ≡ true)
unfolding init_consensus_comp
quorums_intersect_example =
    quorums_intersect (node 0) (node 2) (stamp 1) (stamp 2) (one_ack 1) (one_ack 2) [] [] refl
      (omega arith) (omega arith) (omega arith) (one_ack-member 1, tt) (one_ack-member 2, tt) waited
      waited_second

abbrev leading : LeaderState in_memory
leading = record { comp = node 0; srv = server; db = some (λ key. none); calls = [] }

-- A call gets its stamp, is stored, gets its acknowledgement and commits.
abbrev whole_call : List (Event in_memory)
whole_call =
    enter 2 p_send (stamp 0) (some (7 ∷ 8 ∷ []))
    ∷ advance 0
    ∷ memory (λ offset. one_ack 1)
    ∷ advance 0
    ∷ advance 0
    ∷ advance 0
    ∷ []

commits_in_order_example :
    ((run in_memory leading whole_call).1
      ≡ range 1 (committed_id in_memory (run in_memory leading whole_call).0 - 0))
    × (0 ≤ committed_id in_memory (run in_memory leading whole_call).0)
    × (committed_id in_memory (run in_memory leading whole_call).0
        ≤ seen_id in_memory (run in_memory leading whole_call).0)
unfolding init_consensus_comp
commits_in_order_example =
    commits_in_order in_memory leading whole_call refl (omega arith) (omega arith)
      (tt, (tt, (tt, (tt, (tt, (tt, tt))))))

whole_call-commits : (run in_memory leading whole_call).1 ≡ 1 ∷ []
unfolding run step enter_call entered reserve place_entry get_next_view_stamp advance_call
    store_call submit_entry store_record stored_calls count_call stage_after recheck recheck_loop
    acks first_votes reached_quorum popcount wait_call may_commit commit_call commit edit
    init_consensus_comp log_add_new_entry log_new is_log_empty finish_entry fill_entry
whole_call-commits = refl

-- A call that is stored, with its acknowledgement in the memory.
abbrev stored_call : List (Event in_memory)
stored_call =
    enter 2 p_send (stamp 0) (some (7 ∷ 8 ∷ [])) ∷ advance 0 ∷ memory (λ offset. one_ack 1) ∷ []

in_memory-IsWritable : IsWritable in_memory
in_memory-IsWritable h key r = refl

stored_call-AllReady :
    let t = (run in_memory leading stored_call).0 in
    AllReady t.comp.group_size t.srv.log.entries t.calls
unfolding run step enter_call entered reserve place_entry get_next_view_stamp advance_call
    store_call submit_entry store_record stored_calls recheck recheck_loop acks first_votes
    reached_quorum popcount edit init_consensus_comp log_add_new_entry log_new is_log_empty
    finish_entry fill_entry
stored_call-AllReady = (refl, tt)

all_commit_example :
    let t = (run in_memory leading stored_call).0 in
    (n : ℕ) × ((run in_memory t (first_steps in_memory n)).0.calls ≡ [])
    × (committed_id in_memory (run in_memory t (first_steps in_memory n)).0 ≡ seen_id in_memory t)
unfolding init_consensus_comp
all_commit_example =
    all_commit in_memory leading (λ key. none) stored_call in_memory-IsWritable refl refl refl
      (omega arith) (tt, (tt, (tt, tt))) stored_call-AllReady

-- A leader whose database is not open.
abbrev unstored : LeaderState in_memory
unstored = record leading { db = none }

abbrev failed_call : List (Event in_memory)
failed_call = enter 2 p_send (stamp 0) (some (7 ∷ 8 ∷ [])) ∷ advance 0 ∷ []

abandoned_blocks_example :
    committed_id in_memory (run in_memory (run in_memory unstored failed_call).0 whole_call).0 < 1
unfolding run step enter_call entered reserve get_next_view_stamp advance_call store_call
    submit_entry store_record stored_calls edit init_consensus_comp
abandoned_blocks_example =
    abandoned_blocks in_memory unstored failed_call whole_call 1 refl (omega arith) (omega arith)
      (omega arith) (omega arith) (omega arith) tt (tt, (tt, tt))
      (tt, (tt, (tt, (tt, (tt, (tt, tt))))))

abbrev replica : ReplicaState in_memory
replica = record { comp = node 1; srv = server; db = some (λ key. none) }

-- The entry 3, which lets the node apply up to 2.
abbrev third : ℕ → LogEntry
third offset = record zero_entry {
  msg_vs = stamp 3;
  req_canbe_exed = stamp 2;
  data_size = 3;
  type = p_send;
  bytes = 7 ∷ 8 ∷ [];
  dummy = dummy_end;
}

low_stamp : (n : ℕ) → n < 10 → IsBounded (stamp n)
low_stamp n lt = record { stamp = fits; below = omega (arith, vstol_lem (stamp n) fits) }
  where
    fits : IsStamp (stamp n)
    fits = record { view_fits = omega arith; req_fits = omega arith }

accept_rounds-in_order_example :
    (s' : ReplicaState in_memory) × (applied : List ℕ) × (accept_rounds in_memory
        (λ vs. 0)
        (λ fd index. 0)
        replica
        (third ∷ [])
      ≡ some (s', applied))
    × (vstol (stamp 0) ≤ vstol (committed in_memory (λ vs. 0) (λ fd index. 0) s'))
    × (applied
        ≡ range
            (vstol (stamp 0) + 1)
            (vstol (committed in_memory (λ vs. 0) (λ fd index. 0) s') - vstol (stamp 0)))
unfolding init_consensus_comp
accept_rounds-in_order_example =
    accept_rounds-in_order in_memory (λ vs. 0) (λ fd index. 0) replica (third ∷ [])
      (low_stamp 0 (omega arith)) ((record { at = λ offset. low_stamp 2 (omega arith) }), tt)

-- A log that is written up to 100 bytes before its end.
abbrev nearly_full : DareLog
nearly_full = record log_new { end = log_size - 100 }

place_entry-log_get_entry_example :
    ((place_entry nearly_full 3).tail ≡ log_get_entry nearly_full (log_size - 100))
    × ((log_add_new_entry nearly_full ≢ (place_entry nearly_full 3).tail)
        ↔ ((0 < log_size - (log_size - 100)) × (log_size - (log_size - 100) < entry_header_size)))
unfolding log_new
place_entry-log_get_entry_example = place_entry-log_get_entry nearly_full 3 refl (omega arith)

reserve-sends_example :
    let (r, comp', srv') = reserve (node 0) server 2 p_send (stamp 0) in
    (to_peer 2 r.sends
      ≡ record {
        server_id = 2;
        len = u32 (entry_header_size + u64 3);
        raddr = (server.servers 2).raddr + u32 (entries_offset + srv'.log.tail);
        rkey = (server.servers 2).rkey;
        signaled = (server.servers 2).send_count % 4096 == 0;
        poll_completion = (server.servers 2).send_count % 4096 == 4095;
      }
        ∷ [])
    × (srv'.servers 2
        ≡ record (server.servers 2) { send_count = u32 ((server.servers 2).send_count + 1) })
unfolding init_consensus_comp
reserve-sends_example = reserve-sends (node 0) server 2 p_send (stamp 0) 2
