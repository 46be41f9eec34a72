-- ===== src/Decision/Tests.antt =====
-- Groups of three and five peers: the decisions by evaluation, and the theorems at them.
use rdma_paxos.Prelude.{ℕ, ◌≡◌, ◌≢◌, List, [], ◌∷◌, arith, refl, true, some, pos, minus_one}
use rdma_paxos.Decision.{
  OutputPeer, count_hash, count_zero, get_master_hash, major_loop, major_count_hash, restore_loop,
  do_restore, decide_group, do_decision, send_restore_cmd,
}
use rdma_paxos.Decision.Restore.{cmd_of, outvoted, majority_code, do_decision_majority}

abbrev peer : ℕ → ℕ → OutputPeer
peer id h = record { leader_id = 0; node_id = id; hash = h; hash_index = pos 4; fd = minus_one }

-- The master reported 7, the others 9.
abbrev split : List OutputPeer
split = peer 1 9 ∷ peer 2 9 ∷ []

decide_split : do_decision true (some (peer 0 7 ∷ split)) ≡ (pos 2, cmd_of (peer 0 7) ∷ [])
unfolding do_decision decide_group count_hash count_zero get_master_hash major_loop major_count_hash
    restore_loop do_restore send_restore_cmd
decide_split = refl

major_split : major_count_hash (peer 0 7 ∷ split) 0 ≡ (2, 9)
unfolding major_count_hash major_loop count_hash
major_split = refl

do_decision_majority_example :
    do_decision true (some (peer 0 7 ∷ split))
    ≡ (pos (majority_code (peer 0 7 ∷ split) 9), outvoted 9 (peer 0 7 ∷ split))
unfolding count_hash count_zero
do_decision_majority_example = do_decision_majority (peer 0 7) split 9 refl (omega arith)

null_reported : count_hash (peer 0 0 ∷ split) 0 ≢ 0
unfolding count_hash
null_reported = omega arith
