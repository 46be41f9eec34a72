-- ===== src/Consensus/Drain.antt =====
-- The calls in flight commit, the first one first, once their entries are stored and acknowledged.
use native.Mathlib.Omega.{arith}
use rdma_paxos.Prelude.{
  ℕ, zero, suc, ◌+◌, ◌^◌, ◌≤◌, ◌<◌, ◌≡◌, ◌∙◌, refl, ap, sym, subst, true, List, [], ◌∷◌, Option,
  some, length,
}
use rdma_paxos.Log.{LogEntry}
use rdma_paxos.Db.{BerkeleyDb}
use rdma_paxos.Consensus.Quorum.{recheck, reached_quorum}
use rdma_paxos.Consensus.Leader.{Reserved, may_commit, commit}
use rdma_paxos.Consensus.Threads.{
  Stage, reserved, counting, decided, passed, Call, edit, LeaderState, Event, count_call, wait_call,
  commit_call, advance_call, step, run, AllFresh, stage_after, advance,
}
use rdma_paxos.Consensus.Flight
use rdma_paxos.Consensus.InFlight.{committed_id, seen_id}
use rdma_paxos.Consensus.Commit.{idle-InFlight, idle-IsWritten}
use rdma_paxos.Consensus.Flowing.{IsWritable, IsFlowing, step-IsFlowing, run-IsFlowing, run-seen}

-- A call that is stored, with the acknowledgements of a quorum in the entry if it still counts them.
abbrev pub IsReady : (group_size : ℕ) (entries : ℕ → LogEntry) → Reserved → Stage → Type 0
IsReady group_size entries r reserved = ⊥
IsReady group_size entries r (counting bit_map) =
    reached_quorum (recheck r.next (entries r.at).ack bit_map) group_size ≡ true
IsReady group_size entries r decided = Unit
IsReady group_size entries r passed = Unit

abbrev pub AllReady : (group_size : ℕ) (entries : ℕ → LogEntry) → List Call → Type 0
AllReady group_size entries [] = Unit
AllReady group_size entries (c ∷ cs) =
    IsReady group_size entries c.r c.stage × AllReady group_size entries cs

Between-length : (lo hi : ℕ) (cs : List Call) → Flight.Between lo hi cs → lo + length cs ≤ hi
Between-length lo hi [] b = omega (arith, b)
Between-length lo hi (c ∷ cs) b = omega (arith, b.0, Between-length (Flight.req c) hi cs b.1)

module _ (bdb : BerkeleyDb) where
  -- `n` steps of the thread whose call is the first one.
  abbrev pub first_steps : ℕ → List (Event bdb)
  first_steps zero = []
  first_steps (suc n) = advance 0 ∷ first_steps n

  first_next :
      (s : LeaderState bdb) (c : Call) (cs : List Call)
      → IsFlowing bdb (record s { calls = c ∷ cs })
      → Flight.req c ≡ committed_id bdb s + 1
  first_next s c cs f = omega (
    arith,
    f.full,
    f.flight.between.0,
    Between-length (Flight.req c) (seen_id bdb s) cs f.flight.between.1,
  )

  -- All calls are committed after some number of steps of the first one.
  abbrev Drains : LeaderState bdb → Type 0
  Drains s =
      (n : ℕ) × ((run bdb s (first_steps n)).0.calls ≡ [])
      × (committed_id bdb (run bdb s (first_steps n)).0 ≡ seen_id bdb s)

  Drains-step :
      (s t : LeaderState bdb)
      → IsWritable bdb
      → seen_id bdb s + 1 < 2 ^ 32
      → (step bdb s (advance 0)).0 ≡ t
      → seen_id bdb t ≡ seen_id bdb s
      → (IsFlowing bdb t → Drains t)
      → IsFlowing bdb s
      → Drains s
  unfolding run
  Drains-step s t puts lt e same later f =
      let flowing = subst (IsFlowing bdb) e (step-IsFlowing bdb s (advance 0) puts f tt lt) in
      let (n, gone, all) = subst Drains (sym e) (later flowing) in
      (suc n, gone, all ∙ ap (seen_id bdb) e ∙ same)

  module _ (s : LeaderState bdb) (r : Reserved) (type : ℕ) (payload : Option (List ℕ))
      (cs : List Call) (puts : IsWritable bdb) (lt : seen_id bdb s + 1 < 2 ^ 32)
      (rest : IsFlowing bdb (record s { comp = commit s.comp; calls = cs })
        → Drains (record s { comp = commit s.comp; calls = cs })) where
    call : Stage → Call
    call stage = record { r = r; type = type; payload = payload; stage = stage }

    at_stage : Stage → LeaderState bdb
    unfolding call
    at_stage stage = record s { calls = call stage ∷ cs }

    passed-Drains : IsFlowing bdb (at_stage passed) → Drains (at_stage passed)
    unfolding at_stage call step advance_call commit_call commit edit
    passed-Drains f =
        Drains-step (at_stage passed) (record s { comp = commit s.comp; calls = cs }) puts lt refl
          refl rest f

    decided-Drains : IsFlowing bdb (at_stage decided) → Drains (at_stage decided)
    unfolding at_stage call step advance_call wait_call may_commit edit
    decided-Drains f =
        let has : (s.srv.log.entries r.at).msg_vs ≡ r.next =
          f.written.0 (λ is. ground (arith, is)) in
        let may : may_commit s.comp (s.srv.log.entries r.at).msg_vs ≡ true =
          ground (arith, ap (λ vs. vs.req_id) has, first_next s (call decided) cs f) in
        let passes : (step bdb (at_stage decided) (advance 0)).0 ≡ at_stage passed =
          rw (may, step, advance_call, wait_call, at_stage) refl in
        Drains-step (at_stage decided) (at_stage passed) puts lt passes refl passed-Drains f

    counting-Drains :
        (bit_map : ℕ)
        → reached_quorum (recheck r.next (s.srv.log.entries r.at).ack bit_map) s.comp.group_size
          ≡ true
        → IsFlowing bdb (at_stage (counting bit_map))
        → Drains (at_stage (counting bit_map))
    unfolding at_stage call step advance_call count_call edit stage_after
    counting-Drains bit_map ready f =
        let counts : (step bdb (at_stage (counting bit_map)) (advance 0)).0 ≡ at_stage decided =
          rw (ready, step, advance_call, count_call, stage_after, at_stage) refl in
        Drains-step (at_stage (counting bit_map)) (at_stage decided) puts lt counts refl
          decided-Drains f

    stage-Drains :
        (stage : Stage)
        → IsReady s.comp.group_size s.srv.log.entries r stage
        → IsFlowing bdb (at_stage stage)
        → Drains (at_stage stage)
    stage-Drains reserved ready f = absurd ready
    stage-Drains (counting bit_map) ready f = counting-Drains bit_map ready f
    stage-Drains decided ready f = decided-Drains f
    stage-Drains passed ready f = passed-Drains f

  drain :
      (cs : List Call) (s : LeaderState bdb)
      → IsWritable bdb
      → seen_id bdb s + 1 < 2 ^ 32
      → AllReady s.comp.group_size s.srv.log.entries cs
      → IsFlowing bdb (record s { calls = cs })
      → Drains (record s { calls = cs })
  unfolding run at_stage call commit
  drain [] s puts lt ready f = (0, refl, omega (arith, f.full))
  drain (c ∷ cs) s puts lt ready f =
      stage-Drains s c.r c.type c.payload cs puts lt
        (drain cs (record s { comp = commit s.comp }) puts lt ready.1) c.stage ready.0 f

  -- From a leader without calls in flight, on a database to which every put succeeds, and while the
  -- counter of stamps does not wrap: whatever the threads have done, as long as no call has entered
  -- at the place of an entry whose call was in flight, if every call in flight is stored and the memory has the acknowledgements of a quorum for it, some number of further steps
  -- of the thread with the oldest call commits all the stamps that were given out, and no call is
  -- left.
  pub all_commit :
      (s : LeaderState bdb) (h : BerkeleyDb.Handle bdb) (before : List (Event bdb))
      → IsWritable bdb
      → s.db ≡ some h
      → s.calls ≡ []
      → committed_id bdb s ≡ seen_id bdb s
      → seen_id bdb s + length before + 1 < 2 ^ 32
      → AllFresh bdb s before
      → let t = (run bdb s before).0 in
        AllReady t.comp.group_size t.srv.log.entries t.calls
        → (n : ℕ) × ((run bdb t (first_steps n)).0.calls ≡ [])
          × (committed_id bdb (run bdb t (first_steps n)).0 ≡ seen_id bdb t)
  all_commit s h before puts open_db none_yet even lt fresh ready =
      let start : IsFlowing bdb s = record {
        flight = idle-InFlight bdb s none_yet (omega (arith, even));
        written = idle-IsWritten bdb s none_yet;
        full = omega (arith, ap length none_yet, even);
        connected = (h, open_db);
      } in
      let t = (run bdb s before).0 in
      let small = run-seen bdb s before start.flight start.written fresh (omega (arith, lt)) in
      drain t.calls t puts (omega (arith, small, lt)) ready
        (run-IsFlowing bdb s before puts start fresh (omega (arith, lt)))
