-- ===== src/EvMgr/Verdict.antt =====
-- Whom a proposal of the leader restores, from the hashes in the acknowledgements.
use native.Mathlib.Omega.{arith}
use rdma_paxos.Prelude.{
  ℕ, zero, suc, ◌+◌, ◌/◌, ◌≤◌, ◌≡◌, ◌∙◌, refl, ap, ◌==◌, true, false, if◌then◌else◌, List, [], ◌∷◌,
  ◌++◌, some, ℤ, length, length-append, count_below,
}
use rdma_paxos.ViewStamp.{ViewStamp}
use rdma_paxos.Log.{AcceptAck}
use rdma_paxos.Db.{BerkeleyDb}
use rdma_paxos.Consensus.Types.{p_output}
use rdma_paxos.Decision.{OutputPeer, RestoreCmd, count_hash, count_zero, do_decision}
use rdma_paxos.Decision.Majority.{IsMajority, count_hash-nil, count_hash-append}
use rdma_paxos.Decision.Restore.{cmd_of, outvoted, count_zero_lem, do_decision_majority}
use rdma_paxos.Output.Library.{OutputLib}
use rdma_paxos.Output.Manager.{get_output_hash}
use rdma_paxos.Consensus.Flowing.{IsWritable}
use rdma_paxos.EvMgr.Rsm.{rsm_op}
use rdma_paxos.EvMgr.Idle.{IsIdle, rsm_op-view, rsm_op-group_size, rsm_op-IsIdle}
use rdma_paxos.EvMgr.Leader.{LeaderMgr}
use rdma_paxos.EvMgr.Check.{peer_of, prepare_peer_array, bytes_of_long, Checked, propose}

-- The hash that stands for node `i`: that of the leader, or the one that came back.
abbrev pub reported : (leader_id own : ℕ) → (ℕ → AcceptAck) → ℕ → ℕ
reported leader_id own ack i = if i == leader_id then own else (ack i).hash

-- The commands for the nodes below `n` that reported another hash than `h`.
unfoldable pub restored : ℕ → (leader_id own : ℕ) → ℤ → (ℕ → AcceptAck) → (h : ℕ) → List RestoreCmd
restored zero leader_id own hash_index ack h = []
restored (suc n) leader_id own hash_index ack h =
    let before = restored n leader_id own hash_index ack h in
    if reported leader_id own ack n == h
    then before
    else before ++ record { node_id = (ack n).node_id; hash_index = hash_index } ∷ []

outvoted-append :
    (peers : List OutputPeer) (p : OutputPeer) (h : ℕ)
    → outvoted h (peers ++ p ∷ [])
      ≡ (if p.hash == h then outvoted h peers else outvoted h peers ++ cmd_of p ∷ [])
outvoted-append [] p h = ground arith
outvoted-append (q ∷ qs) p h = ground (arith, outvoted-append qs p h)

module _ (fd leader_id own : ℕ) (hash_index : ℤ) (ack : ℕ → AcceptAck) where
  abbrev peers : ℕ → List OutputPeer
  peers n = prepare_peer_array n fd leader_id own hash_index ack

  length-peers : (n : ℕ) → length (peers n) ≡ n
  unfolding prepare_peer_array
  length-peers zero = refl
  length-peers (suc n) = omega (
    arith,
    length-append (peers n) (peer_of fd leader_id own hash_index ack n ∷ []),
    length-peers n,
  )

  count_hash-peers :
      (n h : ℕ) → count_hash (peers n) h ≡ count_below n (λ i. reported leader_id own ack i == h)
  unfolding prepare_peer_array count_below
  count_hash-peers zero h = count_hash-nil h
  count_hash-peers (suc n) h =
      count_hash-append (peers n) (peer_of fd leader_id own hash_index ack n) h
      ∙ rw (count_hash-peers n h) refl

  outvoted-peers : (n h : ℕ) → outvoted h (peers n) ≡ restored n leader_id own hash_index ack h
  unfolding prepare_peer_array restored
  outvoted-peers zero h = refl
  outvoted-peers (suc n) h =
      outvoted-append (peers n) (peer_of fd leader_id own hash_index ack n) h
      ∙ rw (outvoted-peers n h) refl

  no_zero :
      (n : ℕ)
      → count_below n (λ i. reported leader_id own ack i == 0) ≡ 0
      → count_zero (prepare_peer_array n fd leader_id own hash_index ack) ≡ 0
  no_zero n e = count_zero_lem (peers n) ∙ count_hash-peers n 0 ∙ e

  is_majority :
      (n h : ℕ)
      → n / 2 + 1 ≤ count_below n (λ i. reported leader_id own ack i == h)
      → IsMajority (prepare_peer_array n fd leader_id own hash_index ack) h
  is_majority n h le = rw (length-peers n, count_hash-peers n h) le

-- `do_decision_majority` without a look at the form of the list.
decided_by :
    (peers : List OutputPeer) (h : ℕ)
    → count_zero peers ≡ 0
    → IsMajority peers h
    → (do_decision true (some peers)).1 ≡ outvoted h peers
decided_by [] h z m = absurd (omega (arith, m, count_hash-nil h))
decided_by (p ∷ ps) h z m = ap (λ out. out.1) (do_decision_majority p ps h z m)

module _ (bdb : BerkeleyDb) (lib : OutputLib) where
  -- A proposal of the leader on a node of a group, when its database is open and takes every record,
  -- every stamp that was given out is committed, its own hash is there and no hash is null: the call
  -- of `rsm_op` for it, which a quorum acknowledges, is not left in the wait for its turn, and if more than half of the nodes report
  -- the hash `h`, there is one command for each node with another hash and no other, at the proposed
  -- index and under the id that stands in the slot of that node in the entry. For a follower that has
  -- answered this is its id; for the leader, whose slot nobody writes, it is whatever stands there.
  pub propose_majority :
      (m : LeaderMgr bdb lib) (fd : ℕ) (hash_index : ℤ) (ack : ℕ → AcceptAck) (vs : ViewStamp)
      (own h : ℕ)
      → let size = m.con_node.comp.group_size in
        let leader_id = m.con_node.comp.cur_view.leader_id in
        IsWritable bdb
        → IsIdle bdb m.con_node
        → (get_output_hash lib m.output fd hash_index).0 ≡ some own
        → count_below size (λ i. reported leader_id own ack i == 0) ≡ 0
        → size / 2 + 1 ≤ count_below size (λ i. reported leader_id own ack i == h)
        → (c : Checked bdb lib) × (propose bdb lib m fd hash_index ack true vs ≡ some c)
          × (c.mgr.con_node.waits ≡ false)
          × (c.commands ≡ restored size leader_id own hash_index ack h)
  unfolding propose
  propose_majority m fd hash_index ack vs own h puts idle got none_null majority =
      let size = m.con_node.comp.group_size in
      let leader_id = m.con_node.comp.cur_view.leader_id in
      let node = (rsm_op bdb m.con_node 8 (some (bytes_of_long hash_index)) p_output vs).2 in
      let sent = some (bytes_of_long hash_index) in
      let same_size = rsm_op-group_size bdb puts m.con_node idle 8 sent p_output vs in
      let same_view = rsm_op-view bdb puts m.con_node idle 8 sent p_output vs in
      let cells = prepare_peer_array size fd leader_id own hash_index ack in
      let decided : (do_decision true (some cells)).1
          ≡ restored size leader_id own hash_index ack h =
        decided_by cells h (no_zero fd leader_id own hash_index ack size none_null)
          (is_majority fd leader_id own hash_index ack size h majority)
        ∙ outvoted-peers fd leader_id own hash_index ack size h in
      (
        record {
          mgr = record m {
            con_node = node;
            output = (get_output_hash lib m.output fd hash_index).1;
          };
          commands = (do_decision true (some cells)).1;
        },
        rw (got, same_size, same_view, propose) refl,
        (rsm_op-IsIdle bdb puts m.con_node idle 8 sent p_output vs).goes,
        decided,
      )
