-- ===== src/EvMgr/Checkpoint.antt =====
-- The checkpoint flags of ev_mgr.c: the checkpoint thread asks to disconnect and waits; the thread
-- of the replica answers between two entries.
use rdma_paxos.Prelude.{
  ℕ, ◌==◌, if◌then◌else◌, Bool, true, false, List, [], ◌∷◌, ap, ◌∙◌, ℤ, pos, minus_one, ◌≡◌, refl,
  length, Bool-cases, inl, inr,
}
use rdma_paxos.EvMgr.Replay.{ReplicaMgr}

-- `check_point_state`
pub data Flag : Type 0 where
  no_disconnected disconnected_request disconnected_approve : Flag

-- `check_point_condtion` up to its wait for `restore_flag`: the new flag, and whether the thread is
-- held there.
unfoldable pub check_point_condtion : Flag → ReplicaMgr → Flag × Bool
check_point_condtion no_disconnected m = (no_disconnected, false)
check_point_condtion disconnected_approve m = (disconnected_approve, false)
check_point_condtion disconnected_request m =
    if length m.replica_tcp_map == 0 then (disconnected_approve, true) else (no_disconnected, false)

-- `disconnct_inner` up to its wait: the new flag, and whether it goes on to wait; if not, it returns
-- 0.
unfoldable pub ask : Flag → Flag × Bool
ask no_disconnected = (disconnected_request, true)
ask disconnected_request = (disconnected_request, false)
ask disconnected_approve = (disconnected_approve, false)

-- `disconnct_inner` after its wait, with the result of `dare_rdma_shutdown`: what is returned, the
-- flag, and whether the shutdown was called. After the wait the flag is not a request any more.
unfoldable pub answered : Flag → (failed : Bool) → ℤ × Flag × Bool
answered disconnected_approve true = (minus_one, disconnected_approve, true)
answered disconnected_approve false = (pos 0, no_disconnected, true)
answered no_disconnected failed = (pos 1, no_disconnected, false)
answered disconnected_request failed = (pos 0, disconnected_request, false)

-- `disconnct_inner` as a whole, with one check by the replica's thread during the wait.
unfoldable pub disconnct_inner : Flag → ReplicaMgr → (failed : Bool) → ℤ × Flag × Bool
disconnct_inner flag m failed =
    let (flag', waits) = ask flag in
    if waits then answered (check_point_condtion flag' m).0 failed else (pos 0, flag', false)

-- What a request to disconnect comes to, by the number of open connections.
abbrev pub outcome : ℕ → (failed : Bool) → ℤ × Flag × Bool
outcome connections true =
    if connections == 0
    then (minus_one, disconnected_approve, true)
    else (pos 1, no_disconnected, false)
outcome connections false =
    if connections == 0 then (pos 0, no_disconnected, true) else (pos 1, no_disconnected, false)

-- A request to disconnect shuts RDMA down just when no connection is open, and is refused with 1
-- otherwise; the flag is free again unless the shutdown failed, in which case it stays approved.
pub disconnct_inner_lem :
    (m : ReplicaMgr) (failed : Bool)
    → disconnct_inner no_disconnected m failed ≡ outcome (length m.replica_tcp_map) failed
unfolding disconnct_inner ask check_point_condtion answered
disconnct_inner_lem m true = elim (Bool-cases (length m.replica_tcp_map == 0)) [
  | inl none_open ↦ rw none_open refl
  | inr some_open ↦ rw some_open refl
]
disconnct_inner_lem m false = elim (Bool-cases (length m.replica_tcp_map == 0)) [
  | inl none_open ↦ rw none_open refl
  | inr some_open ↦ rw some_open refl
]

-- Later requests, each with the state of the replica and the result of a shutdown: what they return,
-- whether they called the shutdown, and the flag after them.
unfoldable pub later_requests : Flag → List (ReplicaMgr × Bool) → List (ℤ × Bool) × Flag
later_requests flag [] = ([], flag)
later_requests flag ((m, failed) ∷ later) =
    let (result, flag', called) = disconnct_inner flag m failed in
    let (more, last) = later_requests flag' later in ((result, called) ∷ more, last)

-- As many results 0 without a shutdown as there are requests.
abbrev pub nothing_done : List (ReplicaMgr × Bool) → List (ℤ × Bool)
nothing_done [] = []
nothing_done (r ∷ more) = (pos 0, false) ∷ nothing_done more

approved-requests :
    (rs : List (ReplicaMgr × Bool))
    → later_requests disconnected_approve rs ≡ (nothing_done rs, disconnected_approve)
unfolding later_requests disconnct_inner ask
approved-requests [] = refl
approved-requests (r ∷ more) = rw (approved-requests more) refl

-- A request to disconnect, made while no other is there, whose shutdown fails: if no connection is
-- open, it returns -1, and however many requests follow, whatever connections are open at them, each
-- returns 0, the code of success, without a call of the shutdown, and the flag stays approved.
pub disconnct_inner-stuck :
    (m : ReplicaMgr) (rs : List (ReplicaMgr × Bool))
    → length m.replica_tcp_map ≡ 0
    → ((disconnct_inner no_disconnected m true).0 ≡ minus_one)
      × (later_requests (disconnct_inner no_disconnected m true).1 rs
          ≡ (nothing_done rs, disconnected_approve))
disconnct_inner-stuck m rs none_open =
    let first : disconnct_inner no_disconnected m true ≡ (minus_one, disconnected_approve, true) =
      rw (disconnct_inner_lem m true, none_open) refl in
    (ap (λ r. r.0) first, ap (λ r. later_requests r.1 rs) first ∙ approved-requests rs)
