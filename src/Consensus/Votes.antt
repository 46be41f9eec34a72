-- ===== src/Consensus/Votes.antt =====
-- The leader's bit map counts the nodes that have acknowledged the entry, each once.
use rdma_paxos.Prelude.{
  ℕ, zero, suc, ◌+◌, ◌/◌, ◌≤◌, ◌<◌, ◌≡◌, ◌∙◌, ap, refl, sym, Bool, true, false, ◌&&◌, ◌||◌, ◌==◌,
  leb, List, [], ◌∷◌, Option, none, some, count_below, count_below_mono, count_below_ext, ◌↔◌,
}
use native.Mathlib.Omega.{arith}
use rdma_paxos.ViewStamp.{ViewStamp}
use rdma_paxos.Log.{AcceptAck, max_server_count}
use rdma_paxos.Consensus.Quorum.{reached_quorum, acks, recheck_loop, recheck}
use rdma_paxos.Consensus.BitMap.{
  bit, or_bit, or_below, first_votes-below, bit-first_votes, reached_quorum_lem,
}
use rdma_paxos.Consensus.Leader.{recheck_until, first_votes}
use rdma_paxos.Consensus.Types.{ConsensusComponent}

-- Some slot below `n` holds an acknowledgement of `next` by node `j`.
unfoldable pub voted : ℕ → ViewStamp → (ℕ → AcceptAck) → ℕ → Bool
voted zero next ack j = false
voted (suc n) next ack j = acks next (ack n) && (ack n).node_id == j || voted n next ack j

recheck_loop-below :
    (n : ℕ) (next : ViewStamp) (ack : ℕ → AcceptAck) (b : ℕ)
    → ((i : ℕ) → (ack i).node_id < 7)
    → b < 128
    → recheck_loop n next ack b < 128
unfolding recheck_loop
recheck_loop-below zero next ack b ids lb = lb
recheck_loop-below (suc n) next ack b ids lb = ground (
  arith,
  recheck_loop-below n next ack b ids lb,
  or_below (recheck_loop n next ack b) (ack n).node_id,
  ids n,
)

bit-recheck_loop :
    (n : ℕ) (next : ViewStamp) (ack : ℕ → AcceptAck) (b j : ℕ)
    → ((i : ℕ) → (ack i).node_id < 7)
    → b < 128
    → j < 7
    → bit (recheck_loop n next ack b) j ≡ voted n next ack j || bit b j
unfolding recheck_loop voted
bit-recheck_loop zero next ack b j ids lb lj = refl
bit-recheck_loop (suc n) next ack b j ids lb lj = ground (
  arith,
  bit-recheck_loop n next ack b j ids lb lj,
  or_bit (recheck_loop n next ack b) (ack n).node_id j (recheck_loop-below n next ack b ids lb)
      (ids n) lj,
)

-- Some slot holds an acknowledgement of `next` by node `j` at one of the passes.
unfoldable pub heard : ViewStamp → List (ℕ → AcceptAck) → ℕ → Bool
heard next [] j = false
heard next (ack ∷ later) j = heard next later j || voted max_server_count next ack j

-- Every node id in the slots is below the size of the table of slots.
abbrev pub AllIds : List (ℕ → AcceptAck) → Type 0
AllIds [] = Unit
AllIds (ack ∷ later) = ((i : ℕ) → (ack i).node_id < max_server_count) × AllIds later

abbrev pub is_some : {A : Type 0} → Option A → Bool
is_some none = false
is_some (some a) = true

or_assoc : (p q r : Bool) → p || (q || r) ≡ p || q || r
or_assoc true q r = refl
or_assoc false q r = refl

-- A pass adds the votes in the slots.
heard-recheck :
    (next : ViewStamp) (ack : ℕ → AcceptAck) (later : List (ℕ → AcceptAck)) (b : ℕ)
    → ((i : ℕ) → (ack i).node_id < 7)
    → b < 128
    → count_below 7 (λ j. heard next later j || bit (recheck next ack b) j)
      ≡ count_below 7 (λ j. heard next (ack ∷ later) j || bit b j)
unfolding recheck heard
heard-recheck next ack later b ids lb =
    count_below_ext 7 (λ j. heard next later j || bit (recheck next ack b) j)
      (λ j. heard next (ack ∷ later) j || bit b j)
      (λ j lj.
        ap (λ v. heard next later j || v) (bit-recheck_loop 7 next ack b j ids lb lj)
        ∙ or_assoc (heard next later j) (voted 7 next ack j) (bit b j))

recheck-below :
    (next : ViewStamp) (ack : ℕ → AcceptAck) (b : ℕ)
    → ((i : ℕ) → (ack i).node_id < 7)
    → b < 128
    → recheck next ack b < 128
unfolding recheck
recheck-below next ack b ids lb = recheck_loop-below 7 next ack b ids lb

count-recheck :
    (next : ViewStamp) (ack : ℕ → AcceptAck) (b : ℕ)
    → ((i : ℕ) → (ack i).node_id < 7)
    → b < 128
    → count_below 7 (bit b) ≤ count_below 7 (bit (recheck next ack b))
unfolding recheck
count-recheck next ack b ids lb =
    count_below_mono 7 (bit b) (bit (recheck next ack b))
      (λ j lj h. ground (arith, bit-recheck_loop 7 next ack b j ids lb lj))

reached_quorum_mono :
    (next : ViewStamp) (ack : ℕ → AcceptAck) (b g : ℕ)
    → ((i : ℕ) → (ack i).node_id < 7)
    → b < 128
    → reached_quorum b g ≡ true
    → reached_quorum (recheck next ack b) g ≡ true
reached_quorum_mono next ack b g ids lb h = ground (
  arith,
  count-recheck next ack b ids lb,
  reached_quorum_lem b g lb,
  reached_quorum_lem (recheck next ack b) g (recheck-below next ack b ids lb),
)

recheck_until-cons :
    (g : ℕ) (next : ViewStamp) (ack : ℕ → AcceptAck) (later : List (ℕ → AcceptAck)) (b : ℕ)
    → is_some (recheck_until g next (ack ∷ later) b)
      ≡ is_some (recheck_until g next later (recheck next ack b))
        || reached_quorum (recheck next ack b) g
unfolding recheck_until
recheck_until-cons g next ack later b = ground arith

-- A quorum that is there before a pass does not change the sum of the results.
absorb_before : (p q r : Bool) → (r ≡ true → q ≡ true) → p || q || r ≡ p || q
absorb_before true q r h = refl
absorb_before false true r h = refl
absorb_before false false true h = sym (h refl)
absorb_before false false false h = refl

recheck_until-heard :
    (g : ℕ) (next : ViewStamp) (later : List (ℕ → AcceptAck)) (b : ℕ)
    → AllIds later
    → b < 128
    → is_some (recheck_until g next later b) || reached_quorum b g
      ≡ leb (g / 2 + 1) (count_below 7 (λ j. heard next later j || bit b j))
unfolding recheck_until heard
recheck_until-heard g next [] b ids lb = reached_quorum_lem b g lb
recheck_until-heard g next (ack ∷ later) b ids lb =
    ap (λ p. p || reached_quorum b g) (recheck_until-cons g next ack later b)
    ∙ absorb_before (is_some (recheck_until g next later (recheck next ack b)))
        (reached_quorum (recheck next ack b) g) (reached_quorum b g)
        (reached_quorum_mono next ack b g ids.0 lb)
    ∙ recheck_until-heard g next later (recheck next ack b) ids.1
        (recheck-below next ack b ids.0 lb)
    ∙ ap (leb (g / 2 + 1)) (heard-recheck next ack later b ids.0 lb)

-- A node whose vote the leader has: itself, or one that it has heard.
unfoldable pub has_vote : ConsensusComponent → ViewStamp → List (ℕ → AcceptAck) → ℕ → Bool
has_vote comp next passes j = heard next passes j || j == comp.node_id

recheck_until-leb :
    (comp : ConsensusComponent) (next : ViewStamp) (ack : ℕ → AcceptAck)
    (later : List (ℕ → AcceptAck))
    → AllIds (ack ∷ later)
    → comp.node_id < max_server_count
    → is_some (recheck_until comp.group_size next (ack ∷ later) (first_votes comp))
      ≡ leb
          (comp.group_size / 2 + 1)
          (count_below max_server_count (has_vote comp next (ack ∷ later)))
unfolding has_vote
recheck_until-leb comp next ack later ids li =
    recheck_until-cons comp.group_size next ack later b
    ∙ recheck_until-heard comp.group_size next later (recheck next ack b) ids.1
        (recheck-below next ack b ids.0 lb)
    ∙ ap (leb (comp.group_size / 2 + 1)) (heard-recheck next ack later b ids.0 lb)
    ∙ ap (leb (comp.group_size / 2 + 1)) (
        count_below_ext 7 (λ j. heard next (ack ∷ later) j || bit b j)
          (has_vote comp next (ack ∷ later))
          (λ j lj. ap (λ v. heard next (ack ∷ later) j || v) (bit-first_votes comp j li lj)))
  where
    b : ℕ
    b = first_votes comp

    lb : first_votes comp < 128
    lb = first_votes-below comp li

-- The busy wait ends within the passes just when the nodes with a vote, the leader and those with
-- an acknowledgement of this very entry in a slot at some pass, each counted once, are more than
-- half of the group. The ids in the slots and that of the leader are below the number of slots.
pub recheck_until-quorum :
    (comp : ConsensusComponent) (next : ViewStamp) (ack : ℕ → AcceptAck)
    (later : List (ℕ → AcceptAck))
    → AllIds (ack ∷ later)
    → comp.node_id < max_server_count
    → (is_some (recheck_until comp.group_size next (ack ∷ later) (first_votes comp)) ≡ true)
      ↔ (comp.group_size / 2 + 1 ≤ count_below max_server_count (has_vote comp next (ack ∷ later)))
recheck_until-quorum comp next ack later ids li =
    ground (arith, recheck_until-leb comp next ack later ids li)
