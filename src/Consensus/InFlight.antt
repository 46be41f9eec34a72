-- ===== src/Consensus/InFlight.antt =====
-- The calls of the leader in flight, and what a step of a thread may do to them.
use native.Mathlib.Omega.{arith}
use rdma_paxos.Prelude.{
  ℕ, ◌+◌, ◌-◌, ◌≤◌, ◌<◌, ◌≡◌, refl, ap, List, [], Option, none, some, get_elem?,
}
use rdma_paxos.Db.{BerkeleyDb}
use rdma_paxos.Consensus.Types.{ServerData, Send}
use rdma_paxos.Consensus.Leader.{first_votes}
use rdma_paxos.Consensus.Apply.{range}
use rdma_paxos.Consensus.Threads.{counting, passed, Call, edit, LeaderState, stored_calls}
use rdma_paxos.Consensus.Flight

module _ (bdb : BerkeleyDb) where
  -- The `req_id`s of the last committed and of the last assigned stamp.
  abbrev pub committed_id : LeaderState bdb → ℕ
  committed_id s = s.comp.highest_committed_vs.req_id

  abbrev pub seen_id : LeaderState bdb → ℕ
  seen_id s = s.comp.highest_seen_vs.req_id

  pub record InFlight (s : LeaderState bdb) : Type 0 where
    pub between : Flight.Between (committed_id s) (seen_id s) s.calls
    pub passing : Flight.Passing (committed_id s) s.calls

  -- What a step does, with the list of what it commits.
  pub record Moves (s s' : LeaderState bdb) (log : List ℕ) : Type 0 where
    pub flight : InFlight s'
    pub grows : committed_id s ≤ committed_id s'
    pub seen : seen_id s' ≤ seen_id s + 1
    pub risen : seen_id s ≤ seen_id s'
    pub here : log ≡ range (committed_id s + 1) (committed_id s' - committed_id s)
    -- A stamp that was given out and has no call stays without one and uncommitted.
    pub absent :
        (k : ℕ)
        → k ≤ seen_id s
        → committed_id s < k
        → Flight.Absent k s.calls
        → Flight.Absent k s'.calls × (committed_id s' < k)

  -- A step that leaves the counters alone.
  pub stays :
      (s : LeaderState bdb) (srv' : ServerData) (db' : Option (BerkeleyDb.Handle bdb))
      (calls' : List Call)
      → InFlight (record s { calls = calls' })
      → ((k : ℕ) → Flight.Absent k s.calls → Flight.Absent k calls')
      → Moves s (record s { srv = srv'; db = db'; calls = calls' }) []
  stays s srv' db' calls' i keeps = record {
    flight = record { between = i.between; passing = i.passing };
    grows = omega arith;
    seen = omega arith;
    risen = omega arith;
    here = ap (range (committed_id s + 1)) {x = 0} (omega arith);
    absent = λ k le lt a. (keeps k a, lt);
  }

  pub edit-InFlight :
      (s : LeaderState bdb) (n : ℕ) (c c' : Call)
      → InFlight s
      → get_elem? s.calls n ≡ some c
      → Flight.req c' ≡ Flight.req c
      → (c'.stage ≡ passed → Flight.req c' ≡ committed_id s + 1)
      → InFlight (record s { calls = edit n (some c') s.calls })
  edit-InFlight s n c c' i e same new = record {
    between = Flight.Between-edit (committed_id s) (seen_id s) n s.calls c c' i.between e same;
    passing = Flight.Passing-edit (committed_id s) n s.calls c' i.passing new;
  }

  pub remove-InFlight :
      (s : LeaderState bdb) (n : ℕ)
      → InFlight s
      → InFlight (record s { calls = edit n none s.calls })
  remove-InFlight s n i = record {
    between = Flight.Between-remove (committed_id s) (seen_id s) n s.calls i.between;
    passing = Flight.Passing-remove (committed_id s) n s.calls i.passing;
  }

  pub stored_calls-InFlight :
      (s : LeaderState bdb) (n : ℕ) (c : Call) (sends : Option (List Send))
      → InFlight s
      → get_elem? s.calls n ≡ some c
      → InFlight (record s { calls = stored_calls s.comp s.calls n c sends })
  unfolding stored_calls
  stored_calls-InFlight s n c none i e = remove-InFlight s n i
  stored_calls-InFlight s n c (some writes) i e =
      edit-InFlight s n c (record c { stage = counting (first_votes s.comp) }) i e refl
        (λ is. ground arith)

  pub stored_calls-Absent :
      (s : LeaderState bdb) (n : ℕ) (c : Call) (sends : Option (List Send)) (k : ℕ)
      → get_elem? s.calls n ≡ some c
      → Flight.Absent k s.calls
      → Flight.Absent k (stored_calls s.comp s.calls n c sends)
  unfolding stored_calls
  stored_calls-Absent s n c none k e a = Flight.Absent-remove k n s.calls a
  stored_calls-Absent s n c (some writes) k e a =
      Flight.Absent-edit k n s.calls (record c { stage = counting (first_votes s.comp) }) a
        (Flight.Absent-get k n s.calls c a e)
