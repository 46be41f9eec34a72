-- ===== src/Decision/Restore.antt =====
-- Whom `do_decision` restores: those that the majority outvotes, or everybody.
use native.Mathlib.Decide.{ℕ_discrete}
use mathlib.Core.List.{filter}
use rdma_paxos.Prelude.{
  ℕ, ◌≡◌, ◌≢◌, List, [], ◌∷◌, map, length, arith, refl, ◌==◌, if◌then◌else◌, true, false, some, pos,
  Bool,
}
use rdma_paxos.Decision.{
  OutputPeer, RestoreCmd, count_hash, count_zero, get_master_hash, major_count_hash, restore_loop,
  do_restore, decide_group, do_decision, send_restore_cmd,
}
use rdma_paxos.Decision.Majority.{
  IsMajority, count_hash-le, majority_unique, major_count_hash-largest,
}

abbrev pub dec_ne : (a b : ℕ) → Dec (a ≢ b)
dec_ne a b = elim (ℕ_discrete a b) [ yes e ↦ no (λ k. k e) | no n ↦ yes n ]

-- The restore command that names a peer.
abbrev pub cmd_of : OutputPeer → RestoreCmd
cmd_of p = record { node_id = p.node_id; hash_index = p.hash_index }

-- The commands for the peers whose hash is not `h`.
abbrev pub outvoted : ℕ → List OutputPeer → List RestoreCmd
outvoted h peers = map cmd_of (filter (λ p. dec_ne p.hash h) peers)

restore_loop-outvoted :
    (peers : List OutputPeer) (h : ℕ) → h ≢ 0 → restore_loop peers h ≡ outvoted h peers
unfolding restore_loop send_restore_cmd
restore_loop-outvoted [] h nz = refl
restore_loop-outvoted (p ∷ ps) h nz = ground (arith, restore_loop-outvoted ps h nz)

restore_loop_everybody : (peers : List OutputPeer) → restore_loop peers 0 ≡ map cmd_of peers
unfolding restore_loop send_restore_cmd
restore_loop_everybody [] = refl
restore_loop_everybody (p ∷ ps) = ground (arith, restore_loop_everybody ps)

pub count_zero_lem : (peers : List OutputPeer) → count_zero peers ≡ count_hash peers 0
unfolding count_zero count_hash
count_zero_lem [] = refl
count_zero_lem (p ∷ ps) = ground (arith, count_zero_lem ps)

outvoted_nobody :
    (peers : List OutputPeer) (h : ℕ) → count_hash peers h ≡ length peers → outvoted h peers ≡ []
unfolding count_hash
outvoted_nobody [] h e = refl
outvoted_nobody (p ∷ ps) h e = ground (arith, count_hash-le ps h, outvoted_nobody ps h)

-- The result of a decision where `h` has the majority.
abbrev pub majority_code : List OutputPeer → ℕ → ℕ
majority_code peers h =
    if get_master_hash peers == h then if count_hash peers h == length peers then 0 else 1 else 2

module _ (p : OutputPeer) (ps : List OutputPeer) where
  abbrev all : List OutputPeer
  all = p ∷ ps

  decide_group_majority :
      (h : ℕ)
      → count_zero all ≡ 0
      → IsMajority all h
      → decide_group all ≡ (pos (majority_code all h), outvoted h all)
  unfolding decide_group do_restore
  decide_group_majority h z m = ground (
    arith,
    count_zero_lem all,
    majority_unique all h (get_master_hash all) m,
    majority_unique all h (major_count_hash all 0).1 m,
    major_count_hash-largest p ps 0 h,
    restore_loop-outvoted all h,
    outvoted_nobody all h,
    count_hash-le all (get_master_hash all),
  )

  decide_group_none :
      count_zero all ≡ 0
      → ((h : ℕ) → ¬ IsMajority all h)
      → decide_group all ≡ (pos 3, map cmd_of all)
  unfolding decide_group do_restore
  decide_group_none z none_wins = ground (
    arith,
    none_wins (get_master_hash all),
    none_wins (major_count_hash all 0).1,
    major_count_hash-largest p ps 0 0,
    restore_loop_everybody all,
  )

  -- If no reported hash is null and `h` has the majority, then exactly the peers with another hash
  -- are told to restore, in order, whoever is the master. The result is 2 if the hash taken for the
  -- master's is not `h`, else 0 if all peers reported `h`, and 1 otherwise.
  pub do_decision_majority :
      (h : ℕ)
      → count_zero all ≡ 0
      → IsMajority all h
      → do_decision true (some all) ≡ (pos (majority_code all h), outvoted h all)
  unfolding do_decision
  do_decision_majority h z m = ground (arith, decide_group_majority h z m)

  -- If no reported hash is null and no hash has a majority, then every peer is told to restore and
  -- the result is 3.
  pub do_decision_no_majority :
      count_zero all ≡ 0
      → ((h : ℕ) → ¬ IsMajority all h)
      → do_decision true (some all) ≡ (pos 3, map cmd_of all)
  unfolding do_decision
  do_decision_no_majority z none_wins = ground (arith, decide_group_none z none_wins)

-- If some peer reported a null hash, nobody is told to restore.
pub do_decision_null :
    (fp : Bool) (peers : List OutputPeer)
    → count_hash peers 0 ≢ 0
    → (do_decision fp (some peers)).1 ≡ []
unfolding do_decision
do_decision_null fp [] nz = refl
do_decision_null false (p ∷ ps) nz = refl
do_decision_null true (p ∷ ps) nz = ground (arith, count_zero_lem (p ∷ ps))
