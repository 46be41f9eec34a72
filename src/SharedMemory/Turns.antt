-- ===== src/SharedMemory/Turns.antt =====
-- One turn of a leader and a replica that are in step.
use native.Mathlib.Omega.{arith}
use rdma_paxos.Prelude.{
  ℕ, suc, ◌+◌, ◌^◌, ◌<◌, ◌≤◌, ◌≡◌, ◌≢◌, ◌==◌, ltb, refl, sym, true, List, [], ◌∷◌, some, u32,
  update,
}
use rdma_paxos.ViewStamp.{ViewStamp}
use rdma_paxos.SharedMemory.Types.{SharedAck, SharedComponent, SharedDb, zero_shared_entry}
use rdma_paxos.SharedMemory.Leader.{
  Waiting, await_shared, wait_shared, finish_shared, commit_shared, acks_shared,
  update_shared_record,
}
use rdma_paxos.SharedMemory.Copies.{counted, pass_shared-one, two-quorum}
use rdma_paxos.SharedMemory.Held.{Holds, stamp_before}
use rdma_paxos.SharedMemory.Service.{stamp_of, Group}

commit_shared-next :
    (n : ℕ) (comp : SharedComponent)
    → suc n < 2 ^ 32
    → comp.committed ≡ stamp_of n
    → commit_shared (stamp_of (suc n)) comp ≡ some (record comp { committed = stamp_of (suc n) })
unfolding commit_shared
commit_shared-next n comp lt e =
    let next : u32 (n + 1) ≡ suc n = omega (arith, lt) in rw (e, next) (ground arith)

-- The slots of a new entry after the acknowledgement of node `i`.
abbrev pub slots : ViewStamp → ℕ → ℕ → SharedAck
slots next i = update zero_shared_entry.ack i (record { msg_vs = next; node_id = i })

slots-only : (n i j : ℕ) → acks_shared (stamp_of n) (slots (stamp_of n) i j) ≡ i == j
unfolding acks_shared
slots-only n i j = ground arith

slots-own : (next : ViewStamp) (i : ℕ) → (slots next i i).node_id ≡ i
slots-own next i = ground arith

module _ (sdb : SharedDb) where
  open sdb use {Handle}

  -- The leader finds the acknowledgement of node `i` and commits.
  pub await_shared-one :
      (w : Waiting sdb) (n i : ℕ)
      → suc n < 2 ^ 32
      → w.next ≡ stamp_of (suc n)
      → w.node.comp.committed ≡ stamp_of n
      → w.kept.bit_map ≡ 2 ^ w.node.comp.node_id
      → 1 < w.node.comp.group_size
      → w.node.comp.group_size < 4
      → w.node.comp.node_id < w.node.comp.group_size
      → i < w.node.comp.group_size
      → i ≢ w.node.comp.node_id
      → await_shared sdb w (slots (stamp_of (suc n)) i ∷ [])
        ≡ some (
          0,
          record {
            comp = record w.node.comp { committed = stamp_of (suc n) };
            tail = w.node.tail;
            db = (counted sdb (stamp_of (suc n)) i (w.kept, w.node.db)).1;
          },
        )
  unfolding await_shared wait_shared update_shared_record
  await_shared-one w n i lt next committed mine several few lead_in rep_in apart =
      let pass =
        pass_shared-one sdb (stamp_of (suc n)) w.node.comp.node_id i (slots (stamp_of (suc n)) i)
          (w.kept, w.node.db) apart (slots-only (suc n) i) (slots-own (stamp_of (suc n)) i) 10
          (omega (arith, rep_in, few)) in
      let quorum =
        two-quorum w.node.comp.node_id i w.node.comp.group_size (omega (arith, lead_in, few))
          (omega (arith, rep_in, few)) (λ same. apart (sym same)) few in
      let more : ltb 1 w.node.comp.group_size ≡ true = ground (arith, several) in
      let waits : wait_shared sdb w.next w.node.comp (slots (stamp_of (suc n)) i ∷ [])
            (w.kept, w.node.db)
          ≡ some (counted sdb (stamp_of (suc n)) i (w.kept, w.node.db)) =
        rw (next, pass, mine, quorum) refl in
      let commits : commit_shared w.next w.node.comp
          ≡ some (record w.node.comp { committed = stamp_of (suc n) }) =
        rw next (commit_shared-next n w.node.comp lt committed) in
      rw (more, waits, finish_shared, commits) refl

  -- The place in a group of two or three.
  pub record IsGroup (g : Group sdb) : Type 0 where
    pub several : 1 < g.lead.comp.group_size
    pub few : g.lead.comp.group_size < 4
    pub lead_in : g.lead.comp.node_id < g.lead.comp.group_size
    pub rep_in : g.rep.comp.node_id < g.lead.comp.group_size
    pub apart : g.rep.comp.node_id ≢ g.lead.comp.node_id

  -- The leader has committed `n` requests, and the replica has sent all but `pending`.
  pub record AfterTurns (n : ℕ) (pending : List (List ℕ)) (g : Group sdb) : Type 0 where
    pub group : IsGroup g
    pub seen : g.lead.comp.highest_seen_vs ≡ stamp_of n
    pub committed : g.lead.comp.committed ≡ stamp_of n
    pub behind : g.rep.comp.committed ≡ stamp_before n
    pub tails : g.rep.tail ≡ g.lead.tail
    pub empty : (i at : ℕ) → g.lead.tail ≤ at → g.mem i at ≡ zero_shared_entry
    pub lead_open : (h : Handle) × (g.lead.db ≡ some h)
    pub rep_open : (h : Handle) × (g.rep.db ≡ some h)
    pub holds : Holds sdb n g.rep.db pending
