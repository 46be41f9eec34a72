-- ===== src/Consensus/Intersect.antt =====
-- Two entries that the leader counts a quorum for have a node in common that voted for both.
use native.Mathlib.Omega.{arith}
use rdma_paxos.Prelude.{
  ℕ, ◌+◌, ◌/◌, ◌≤◌, ◌<◌, ◌≡◌, refl, subst, sym, true, false, List, [], ◌∷◌, zero, suc, count_below,
  count_below_both, count_below_drop,
}
use rdma_paxos.ViewStamp.{ViewStamp}
use rdma_paxos.Log.{AcceptAck, max_server_count}
use rdma_paxos.Consensus.Types.{ConsensusComponent}
use rdma_paxos.Consensus.Leader.{recheck_until, first_votes}
use rdma_paxos.Consensus.Votes.{AllIds, heard, voted, has_vote, is_some, recheck_until-quorum}

-- The ids in the slots are those of members of the group.
abbrev Members : ℕ → List (ℕ → AcceptAck) → Type 0
Members g [] = Unit
Members g (ack ∷ later) = ((i : ℕ) → (ack i).node_id < g) × Members g later

Members-AllIds :
    (g : ℕ) (passes : List (ℕ → AcceptAck))
    → g ≤ max_server_count
    → Members g passes
    → AllIds passes
Members-AllIds g [] le m = m
Members-AllIds g (ack ∷ later) le m = ((λ i. omega (arith, m.0 i)), Members-AllIds g later le m.1)

voted-member :
    (n g j : ℕ) (next : ViewStamp) (ack : ℕ → AcceptAck)
    → ((i : ℕ) → (ack i).node_id < g)
    → g ≤ j
    → voted n next ack j ≡ false
unfolding voted
voted-member zero g j next ack m le = refl
voted-member (suc n) g j next ack m le = ground (arith, voted-member n g j next ack m le, m n)

heard-member :
    (g j : ℕ) (next : ViewStamp) (passes : List (ℕ → AcceptAck))
    → Members g passes
    → g ≤ j
    → heard next passes j ≡ false
unfolding heard
heard-member g j next [] m le = refl
heard-member g j next (ack ∷ later) m le =
    ground
      (arith, heard-member g j next later m.1 le, voted-member max_server_count g j next ack m.0 le)

-- The end of a busy wait, as a majority of the group.
majority :
    (comp : ConsensusComponent) (next : ViewStamp) (ack : ℕ → AcceptAck)
    (later : List (ℕ → AcceptAck))
    → comp.group_size ≤ max_server_count
    → comp.node_id < comp.group_size
    → Members comp.group_size (ack ∷ later)
    → is_some (recheck_until comp.group_size next (ack ∷ later) (first_votes comp)) ≡ true
    → comp.group_size / 2 + 1 ≤ count_below comp.group_size (has_vote comp next (ack ∷ later))
unfolding has_vote
majority comp next ack later le lt m h = omega (
  arith,
  (recheck_until-quorum comp next ack later (Members-AllIds comp.group_size (ack ∷ later) le m)
        (omega arith)).0
      h,
  count_below_drop max_server_count comp.group_size (has_vote comp next (ack ∷ later)) le
      (λ j lj. ground (arith, heard-member comp.group_size j next (ack ∷ later) m lj)),
)

-- When the busy waits for two entries both end, on nodes of one group that may differ and in which
-- only ids of members stand in the slots, some member has voted for both entries.
pub quorums_intersect :
    (comp comp' : ConsensusComponent) (next next' : ViewStamp) (ack ack' : ℕ → AcceptAck)
    (later later' : List (ℕ → AcceptAck))
    → comp.group_size ≡ comp'.group_size
    → comp.group_size ≤ max_server_count
    → comp.node_id < comp.group_size
    → comp'.node_id < comp'.group_size
    → Members comp.group_size (ack ∷ later)
    → Members comp'.group_size (ack' ∷ later')
    → is_some (recheck_until comp.group_size next (ack ∷ later) (first_votes comp)) ≡ true
    → is_some (recheck_until comp'.group_size next' (ack' ∷ later') (first_votes comp')) ≡ true
    → (j : ℕ) × (j < comp.group_size)
      × (has_vote comp next (ack ∷ later) j ≡ true)
      × (has_vote comp' next' (ack' ∷ later') j ≡ true)
quorums_intersect comp comp' next next' ack ack' later later' same le lt lt' m m' h h' =
    count_below_both comp.group_size (has_vote comp next (ack ∷ later))
      (has_vote comp' next' (ack' ∷ later'))
      (omega (arith, majority comp next ack later le lt m h, other))
  where
    other :
        comp.group_size / 2 + 1 ≤ count_below comp.group_size (has_vote comp' next' (ack' ∷ later'))
    other =
        subst (λ g. g / 2 + 1 ≤ count_below g (has_vote comp' next' (ack' ∷ later'))) (sym same)
          (majority comp' next' ack' later' (omega arith) lt' m' h')
