-- ===== src/EvMgr/Tests.antt =====
-- A session of two reads, and requests to disconnect.
use native.Mathlib.Omega.{arith}
use rdma_paxos.Prelude.{
  ℕ, ◌≡◌, refl, true, false, List, [], ◌∷◌, none, some, pos, minus_one, ◌==◌, if◌then◌else◌,
  count_below, ◌≤◌, ◌/◌, ◌+◌,
}
use rdma_paxos.Log.{AcceptAck}
use rdma_paxos.Samples.{in_memory, summing, node, server, stamp}
use rdma_paxos.Consensus.Types.{init_consensus_comp}
use rdma_paxos.Output.Manager.{
  init_output_mgr, get_output_hash, get_hash_at, hash_at, below_count, existing,
  get_output_handler_by_fd,
}
use rdma_paxos.Output.Handler.{index_loop, get_val_by_index}
use rdma_paxos.EvMgr.Leader.{LeaderMgr}
use rdma_paxos.EvMgr.Replay.{connected, ReplicaMgr}
use rdma_paxos.Consensus.Flowing.{IsWritable}
use rdma_paxos.EvMgr.Idle.{IsIdle}
use rdma_paxos.EvMgr.Check.{Checked, propose}
use rdma_paxos.EvMgr.Verdict.{reported, restored, propose_majority}
use rdma_paxos.EvMgr.Checkpoint.{
  later_requests, disconnct_inner, disconnct_inner-stuck, no_disconnected, disconnected_approve,
}

abbrev pub leader_mgr : LeaderMgr in_memory summing
leader_mgr = record {
  node_id = 0;
  rsm = true;
  check_output = false;
  leader_tcp_map = [];
  leader_udp_map = [];
  con_node = record {
    comp = node 0;
    srv = server;
    db = some (λ key. none);
    records = [];
    waits = false;
  };
  output = init_output_mgr summing;
}

pub puts : IsWritable in_memory
puts h key r = refl

pub starts-IsIdle : IsIdle in_memory leader_mgr.con_node
unfolding init_consensus_comp
starts-IsIdle = record { connected = (λ key. none, refl); even = refl; goes = refl }

abbrev pub replica_mgr : ReplicaMgr
replica_mgr = record { replica_tcp_map = []; cur_rec = 0 }

abbrev datas : List (List ℕ)
datas = (7 ∷ 8 ∷ []) ∷ (9 ∷ []) ∷ []

-- Connection 5 has sent one byte; the second of three nodes has another hash for it.
abbrev sender : LeaderMgr in_memory summing
sender = record leader_mgr {
  check_output = true;
  output = record {
    fd_handler = λ fd. some (record {
      fd = fd;
      called_cnt = 1;
      hash = 0;
      hash_buffer_curr = 0;
      hash_buffer = [];
      count = 1;
      output_list = some (77 ∷ []);
    });
  };
}

abbrev answers : ℕ → AcceptAck
answers i = record { msg_vs = stamp 1; node_id = i; hash = if i == 1 then 76 else 77 }

own_hash : (get_output_hash summing sender.output 5 (pos 0)).0 ≡ some 77
unfolding get_output_hash get_hash_at hash_at get_val_by_index index_loop below_count
    get_output_handler_by_fd existing
own_hash = refl

none_null : count_below 3 (λ i. reported 0 77 answers i == 0) ≡ 0
unfolding count_below
none_null = refl

majority : 3 / 2 + 1 ≤ count_below 3 (λ i. reported 0 77 answers i == 77)
unfolding count_below
majority = omega arith

propose_majority_example :
    (c : Checked in_memory summing) × (propose in_memory summing sender 5
        (pos 0)
        answers
        true
        (stamp 1)
      ≡ some c)
    × (c.mgr.con_node.waits ≡ false)
    × (c.commands ≡ restored 3 0 77 (pos 0) answers 77)
unfolding init_consensus_comp
propose_majority_example =
    propose_majority in_memory summing sender 5 (pos 0) answers (stamp 1) 77 77 puts starts-IsIdle
      own_hash none_null majority

second_restored :
    restored 3 0 77 (pos 0) answers 77 ≡ record { node_id = 1; hash_index = pos 0 } ∷ []
unfolding restored
second_restored = refl

disconnct_inner-stuck_example :
    ((disconnct_inner no_disconnected replica_mgr true).0 ≡ minus_one)
    × (later_requests
          (disconnct_inner no_disconnected replica_mgr true).1
          ((replica_mgr, false) ∷ (replica_mgr, true) ∷ [])
        ≡ ((pos 0, false) ∷ (pos 0, false) ∷ [], disconnected_approve))
disconnct_inner-stuck_example =
    disconnct_inner-stuck replica_mgr ((replica_mgr, false) ∷ (replica_mgr, true) ∷ []) refl
