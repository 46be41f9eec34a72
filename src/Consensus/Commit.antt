-- ===== src/Consensus/Commit.antt =====
-- The leader commits the entries in the order of their stamps, however its threads interleave.
use native.Mathlib.Omega.{arith}
use rdma_paxos.Prelude.{
  ℕ, ◌+◌, ◌-◌, ◌^◌, ◌≤◌, ◌<◌, ◌≡◌, ◌∙◌, ap, sym, subst, List, [], ◌∷◌, ◌++◌, length,
}
use rdma_paxos.Db.{BerkeleyDb}
use rdma_paxos.Consensus.Apply.{range, range-append}
use rdma_paxos.Consensus.Threads.{LeaderState, Event, step, run, AllFresh}
use rdma_paxos.Consensus.Flight
use rdma_paxos.Consensus.InFlight.{committed_id, seen_id, InFlight, Moves}
use rdma_paxos.Consensus.Moves.{step-Moves}
use rdma_paxos.Consensus.Written.{Written}
use rdma_paxos.Consensus.Kept.{IsWritten, step-IsWritten}

module _ (bdb : BerkeleyDb) where
  -- What a run does, with the list of what it commits.
  pub record Runs (s s' : LeaderState bdb) (log : List ℕ) : Type 0 where
    pub flight : InFlight bdb s'
    pub written : IsWritten bdb s'
    pub grows : committed_id bdb s ≤ committed_id bdb s'
    pub here : log ≡ range (committed_id bdb s + 1) (committed_id bdb s' - committed_id bdb s)

  Runs-cons :
      (s s' s'' : LeaderState bdb) (xs ys : List ℕ)
      → Moves bdb s s' xs
      → Runs s' s'' ys
      → Runs s s'' (xs ++ ys)
  Runs-cons s s' s'' xs ys first rest = record {
    flight = rest.flight;
    written = rest.written;
    grows = omega (arith, first.grows, rest.grows);
    here =
        ap (λ z. z ++ ys) first.here
        ∙ ap (λ z. range (c + 1) (c' - c) ++ z) rest.here
        ∙ ap (λ k. range (c + 1) (c' - c) ++ range k (c'' - c')) (omega (arith, first.grows))
        ∙ range-append (c + 1) (c' - c) (c'' - c')
        ∙ ap (range (c + 1)) (omega (arith, first.grows, rest.grows));
  }
    where
      c : ℕ
      c = committed_id bdb s

      c' : ℕ
      c' = committed_id bdb s'

      c'' : ℕ
      c'' = committed_id bdb s''

  pub run-Runs :
      (s : LeaderState bdb) (events : List (Event bdb))
      → InFlight bdb s
      → IsWritten bdb s
      → AllFresh bdb s events
      → seen_id bdb s + length events < 2 ^ 32
      → Runs s (run bdb s events).0 (run bdb s events).1
  unfolding run
  run-Runs s [] i w fresh lt = record {
    flight = i;
    written = w;
    grows = omega arith;
    here = ap (range (committed_id bdb s + 1)) {x = 0} (omega arith);
  }
  run-Runs s (e ∷ es) i w fresh lt =
      let first = step-Moves bdb s e i w (omega arith) in
      Runs-cons s (step bdb s e).0 (run bdb (step bdb s e).0 es).0 (step bdb s e).1
        (run bdb (step bdb s e).0 es).1 first
        (run-Runs (step bdb s e).0 es first.flight (step-IsWritten bdb s e w fresh.0) fresh.1
          (omega (arith, first.seen)))

  run-Absent :
      (s : LeaderState bdb) (events : List (Event bdb)) (k : ℕ)
      → InFlight bdb s
      → IsWritten bdb s
      → AllFresh bdb s events
      → seen_id bdb s + length events < 2 ^ 32
      → committed_id bdb s < k
      → k ≤ seen_id bdb s
      → Flight.Absent k s.calls
      → committed_id bdb (run bdb s events).0 < k
  unfolding run
  run-Absent s [] k i w fresh lt above le a = above
  run-Absent s (e ∷ es) k i w fresh lt above le a =
      let first = step-Moves bdb s e i w (omega arith) in
      let (a', above') = first.absent k le above a in
      run-Absent (step bdb s e).0 es k first.flight (step-IsWritten bdb s e w fresh.0) fresh.1
        (omega (arith, first.seen)) above' (omega (arith, first.risen)) a'

  pub idle-InFlight :
      (s : LeaderState bdb) → s.calls ≡ [] → committed_id bdb s ≤ seen_id bdb s → InFlight bdb s
  idle-InFlight s none_yet le = record {
    between = subst (Flight.Between (committed_id bdb s) (seen_id bdb s)) (sym none_yet) le;
    passing = subst (Flight.Passing (committed_id bdb s)) (sym none_yet) tt;
  }

  pub idle-IsWritten : (s : LeaderState bdb) → s.calls ≡ [] → IsWritten bdb s
  idle-IsWritten s none_yet = subst (Written s.srv.log.entries) (sym none_yet) tt

  -- From a leader without calls in flight, while the counter of stamps does not wrap and no call
  -- enters at the place of an entry whose call is in flight, every interleaving of the threads with
  -- writes of acknowledgements to the log commits the stamps after the committed one in order and
  -- each once, and the committed stamp names the last of them and is one that was given out.
  pub commits_in_order :
      (s : LeaderState bdb) (events : List (Event bdb))
      → s.calls ≡ []
      → committed_id bdb s ≤ seen_id bdb s
      → seen_id bdb s + length events < 2 ^ 32
      → AllFresh bdb s events
      → ((run bdb s events).1
          ≡ range
              (committed_id bdb s + 1)
              (committed_id bdb (run bdb s events).0 - committed_id bdb s))
        × (committed_id bdb s ≤ committed_id bdb (run bdb s events).0)
        × (committed_id bdb (run bdb s events).0 ≤ seen_id bdb (run bdb s events).0)
  commits_in_order s events none_yet le lt fresh =
      let r =
        run-Runs s events (idle-InFlight s none_yet le) (idle-IsWritten s none_yet) fresh lt in
      (
        r.here,
        r.grows,
        Flight.Between-le (committed_id bdb (run bdb s events).0) (seen_id bdb (run bdb s events).0)
            (run bdb s events).0.calls r.flight.between,
      )

  -- A stamp above the committed one that was given out and whose call is not in flight any more,
  -- as after a store that failed, is never reached by the committed stamp, whatever the threads do
  -- later, while the counter does not wrap and no call enters at the place of an entry whose call is
  -- in flight. `before` is how the leader came to this state.
  pub abandoned_blocks :
      (s : LeaderState bdb) (before later : List (Event bdb)) (k : ℕ)
      → s.calls ≡ []
      → committed_id bdb s ≤ seen_id bdb s
      → seen_id bdb s + length before < 2 ^ 32
      → seen_id bdb (run bdb s before).0 + length later < 2 ^ 32
      → committed_id bdb (run bdb s before).0 < k
      → k ≤ seen_id bdb (run bdb s before).0
      → Flight.Absent k (run bdb s before).0.calls
      → AllFresh bdb s before
      → AllFresh bdb (run bdb s before).0 later
      → committed_id bdb (run bdb (run bdb s before).0 later).0 < k
  abandoned_blocks s before later k none_yet le lt lt' above below a fresh fresh' =
      let r =
        run-Runs s before (idle-InFlight s none_yet le) (idle-IsWritten s none_yet) fresh lt in
      run-Absent (run bdb s before).0 later k r.flight r.written fresh' lt' above below a
