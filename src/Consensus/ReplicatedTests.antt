-- ===== src/Consensus/ReplicatedTests.antt =====
-- A leader and a replica that start with an empty log.
use native.Mathlib.Omega.{arith}
use rdma_paxos.Prelude.{ℕ, ◌≡◌, ◌<◌, ◌-◌, refl, List, [], ◌∷◌, some, none}
use rdma_paxos.ViewStamp.{IsStamp}
use rdma_paxos.ViewStamp.Order.{vstol_lem}
use rdma_paxos.Log.{zero_entry, DareLog, log_new, log_size, log_get_entry}
use rdma_paxos.Db.{retrieve_record}
use rdma_paxos.Consensus.Types.{init_consensus_comp, p_send, p_tcp_connect, dummy_end}
use rdma_paxos.Consensus.Replica.{ReplicaState, Accepted, accept_round, is_complete}
use rdma_paxos.Consensus.Apply.{IsBounded}
use rdma_paxos.Consensus.Flowing.{IsWritable}
use rdma_paxos.Consensus.Delivery.{Gets, reserved, submitted, request, submit_entry-accept_round}
use rdma_paxos.Consensus.Leader.{place_entry, record_of}
use rdma_paxos.Consensus.Received.{Delivered}
use rdma_paxos.Consensus.Wrapped.{IsFull, accept_round-wrapped}
use rdma_paxos.Consensus.Replicated.{Turn, Pair}
use rdma_paxos.Samples.{in_memory, node, server, stamp}

abbrev replica : ReplicaState in_memory
replica = record { comp = node 1; srv = server; db = some (λ key. none) }

abbrev pair : Pair in_memory
pair = record { comp = node 0; srv = server; db = some (λ key. none); replica = replica }

bounded : (n : ℕ) → n < 10 → IsBounded (stamp n)
bounded n lt = record { stamp = fits; below = omega (arith, vstol_lem (stamp n) fits) }
  where
    fits : IsStamp (stamp n)
    fits = record { view_fits = omega arith; req_fits = omega arith }

in_memory-IsWritable : IsWritable in_memory
in_memory-IsWritable h key r = refl

submit_entry-accept_round_example :
    (retrieve_record in_memory
        (submitted in_memory
          (λ vs. 0)
          (λ fd index. 0)
          (node 0)
          server
          (some (λ key. none))
          p_send
          (stamp 0)
          (7 ∷ 8 ∷ [])).2
        (reserved in_memory
          (λ vs. 0)
          (λ fd index. 0)
          (node 0)
          server
          (some (λ key. none))
          p_send
          (stamp 0)
          (7 ∷ 8 ∷ [])).0.record_no
      ≡ (
        0,
        some (request in_memory (λ vs. 0) (λ fd index. 0) (node 0) p_send (stamp 0) (7 ∷ 8 ∷ [])),
      ))
    × Gets in_memory
        (λ vs. 0)
        (λ fd index. 0)
        (node 0)
        server
        (some (λ key. none))
        p_send
        (stamp 0)
        (7 ∷ 8 ∷ [])
        replica
        (submitted in_memory
          (λ vs. 0)
          (λ fd index. 0)
          (node 0)
          server
          (some (λ key. none))
          p_send
          (stamp 0)
          (7 ∷ 8 ∷ [])).1
unfolding init_consensus_comp
submit_entry-accept_round_example =
    submit_entry-accept_round in_memory (λ vs. 0) (λ fd index. 0) (node 0) server
      (some (λ key. none)) p_send (stamp 0) (7 ∷ 8 ∷ []) replica (λ key. none) (λ key. none)
      in_memory-IsWritable refl refl (omega arith) refl refl (omega arith) (bounded 0 (omega arith))
      (bounded 0 (omega arith))

-- A connection and a request on it, committed in between.
abbrev turns : List Turn
turns =
    record {
      committed = stamp 0;
      mine = λ offset. zero_entry;
      theirs = λ offset. zero_entry;
      type = p_tcp_connect;
      clt_id = stamp 0;
      bytes = [];
    }
    ∷ record {
      committed = stamp 1;
      mine = λ offset. zero_entry;
      theirs = λ offset. zero_entry;
      type = p_send;
      clt_id = stamp 1;
      bytes = 7 ∷ 8 ∷ [];
    }
    ∷ []

-- The log is written up to 100 bytes before its end, and the first entry is still there.
abbrev full_log : DareLog
full_log = record log_new {
  end = log_size - 100;
  entries = λ offset. record zero_entry {
    msg_vs = stamp 1;
    data_size = 3;
    type = p_send;
    bytes = 7 ∷ 8 ∷ [];
    dummy = dummy_end;
    req_canbe_exed = stamp 0;
  };
}

abbrev wrapped : ReplicaState in_memory
wrapped = record replica { srv = record server { log = full_log } }

full_log-IsFull : IsFull full_log
unfolding log_new
full_log-IsFull = omega arith

accept_round-wrapped_example :
    (a : Accepted in_memory) × (accept_round in_memory (λ vs. 0) (λ fd index. 0) wrapped ≡ some a)
    × Delivered in_memory
        (λ vs. 0)
        (λ fd index. 0)
        (stamp 1)
        0
        (record_of (full_log.entries 0))
        0
        219
        wrapped.comp
        wrapped.srv.log.len
        wrapped.db
        wrapped.srv.servers
        a
    × ((place_entry full_log 2).tail ≡ 0)
    × (log_get_entry a.state.srv.log a.state.srv.log.end ≡ 219)
unfolding init_consensus_comp
accept_round-wrapped_example =
    accept_round-wrapped in_memory (λ vs. 0) (λ fd index. 0) wrapped (λ key. none) full_log 2
      in_memory-IsWritable refl (omega arith) (bounded 0 (omega arith)) (bounded 0 (omega arith))
      (unfold is_complete in refl) (omega arith) full_log-IsFull full_log-IsFull
