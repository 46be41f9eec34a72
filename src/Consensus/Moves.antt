-- ===== src/Consensus/Moves.antt =====
-- What one step of a thread of the leader does to the stamps in flight and to the committed stamp.
use native.Mathlib.Omega.{arith}
use rdma_paxos.Prelude.{
  ℕ, ◌+◌, ◌^◌, ◌<◌, ◌≡◌, ◌≢◌, ◌∙◌, refl, ap, sym, subst, Bool-cases, Option-cases, u32, inl, inr,
  true, List, [], ◌∷◌, ◌++◌, Option, none, some, get_elem?,
}
use rdma_paxos.ViewStamp.{ViewStamp}
use rdma_paxos.Db.{BerkeleyDb}
use rdma_paxos.Consensus.Quorum.{recheck}
use rdma_paxos.Consensus.Leader.{get_next_view_stamp, reserve, submit_entry, may_commit, commit}
use rdma_paxos.Consensus.Apply.{range}
use rdma_paxos.Consensus.Threads.{
  Stage, reserved, counting, decided, passed, Call, edit, LeaderState, Event, enter_call,
  store_call, count_call, wait_call, commit_call, advance_call, step, entered, stage_after, enter,
  memory, advance, stored_calls, acknowledged,
}
use rdma_paxos.Consensus.Flight
use rdma_paxos.Consensus.Written.{Written-get}
use rdma_paxos.Consensus.Kept.{IsWritten}
use rdma_paxos.Consensus.InFlight.{
  committed_id, seen_id, InFlight, Moves, stays, edit-InFlight, stored_calls-InFlight,
  stored_calls-Absent,
}

module _ (bdb : BerkeleyDb) where
  enter_call-Moves :
      (s : LeaderState bdb) (size type : ℕ) (clt_id : ViewStamp) (payload : Option (List ℕ))
      → InFlight bdb s
      → seen_id bdb s + 1 < 2 ^ 32
      → Moves bdb s (enter_call bdb s size type clt_id payload) []
  unfolding enter_call reserve get_next_view_stamp entered
  enter_call-Moves s size type clt_id payload i lt = record {
    flight = record {
      between =
          subst
            (λ hi.
              Flight.Between (committed_id bdb s) hi
                (s.calls ++ entered s.comp s.srv size type clt_id payload ∷ []))
            (sym fits)
            (Flight.Between-enter (committed_id bdb s) (seen_id bdb s) s.calls
              (entered s.comp s.srv size type clt_id payload) i.between fits);
      passing =
          Flight.Passing-enter (committed_id bdb s) s.calls
            (entered s.comp s.srv size type clt_id payload) i.passing (λ is. ground arith);
    };
    grows = omega arith;
    seen = omega arith;
    risen = omega arith;
    here = ap (range (committed_id bdb s + 1)) {x = 0} (omega arith);
    absent = λ k le above a. (
      Flight.Absent-enter k s.calls (entered s.comp s.srv size type clt_id payload) a
          (λ is. absurd (omega (arith, is, fits))),
      above,
    );
  }
    where
      fits : u32 (seen_id bdb s + 1) ≡ seen_id bdb s + 1
      fits = omega arith

  stage_after-waits : (g bit_map : ℕ) → stage_after g bit_map ≢ passed
  unfolding stage_after
  stage_after-waits g bit_map = ground arith

  -- The wait lets a call in flight pass only if its stamp is the next one.
  may_commit-next :
      (s : LeaderState bdb) (n : ℕ) (c : Call)
      → InFlight bdb s
      → get_elem? s.calls n ≡ some c
      → seen_id bdb s + 1 < 2 ^ 32
      → (s.srv.log.entries c.r.at).msg_vs ≡ c.r.next
      → may_commit s.comp (s.srv.log.entries c.r.at).msg_vs ≡ true
      → Flight.req c ≡ committed_id bdb s + 1
  unfolding may_commit
  may_commit-next s n c i e lt has may = ground (
    arith,
    may,
    ap (λ vs. vs.req_id) has,
    Flight.Between-get (committed_id bdb s) (seen_id bdb s) n s.calls c i.between e,
  )

  wait_call-Moves :
      (s : LeaderState bdb) (n : ℕ) (c : Call)
      → InFlight bdb s
      → get_elem? s.calls n ≡ some c
      → seen_id bdb s + 1 < 2 ^ 32
      → (s.srv.log.entries c.r.at).msg_vs ≡ c.r.next
      → Moves bdb s (wait_call bdb s n c) []
  unfolding wait_call
  wait_call-Moves s n c i e lt has =
      elim (Bool-cases (may_commit s.comp (s.srv.log.entries c.r.at).msg_vs)) [
        | inl may ↦ rw may (
            stays bdb s s.srv s.db (edit n (some (record c { stage = passed })) s.calls)
              (edit-InFlight bdb s n c (record c { stage = passed }) i e refl
                (λ is. may_commit-next s n c i e lt has may))
              (λ k a.
                Flight.Absent-edit k n s.calls (record c { stage = passed }) a
                  (Flight.Absent-get k n s.calls c a e)))
        | inr waits ↦ rw waits (stays bdb s s.srv s.db s.calls i (λ k a. a))
      ]

  commit_call-Moves :
      (s : LeaderState bdb) (n : ℕ) (c : Call)
      → InFlight bdb s
      → get_elem? s.calls n ≡ some c
      → c.stage ≡ passed
      → seen_id bdb s + 1 < 2 ^ 32
      → Moves bdb s (commit_call bdb s n) (Flight.req c ∷ [])
  unfolding commit_call commit
  commit_call-Moves s n c i e st lt = record {
    flight = record {
      between =
          subst (λ lo. Flight.Between lo (seen_id bdb s) (edit n none s.calls)) (sym fits) between';
      passing =
          subst (λ lo. Flight.Passing lo (edit n none s.calls)) (sym fits)
            (Flight.Passing-commit (committed_id bdb s) (committed_id bdb s + 1) (seen_id bdb s)
              (edit n none s.calls) (Flight.Passing-remove (committed_id bdb s) n s.calls i.passing)
              (omega arith) between');
    };
    grows = omega (arith, fits);
    seen = omega arith;
    risen = omega arith;
    here =
        ap (λ k. k ∷ []) next ∙ ap (range (committed_id bdb s + 1)) {x = 1} (omega (arith, fits));
    absent = λ k le above a. (
      Flight.Absent-remove k n s.calls a,
      omega (arith, fits, next, Flight.Absent-get k n s.calls c a e),
    );
  }
    where
      next : Flight.req c ≡ committed_id bdb s + 1
      next = Flight.Passing-get (committed_id bdb s) n s.calls c i.passing e st

      fits : u32 (committed_id bdb s + 1) ≡ committed_id bdb s + 1
      fits = omega (
        arith,
        next,
        Flight.Between-get (committed_id bdb s) (seen_id bdb s) n s.calls c i.between e,
      )

      between' : Flight.Between (committed_id bdb s + 1) (seen_id bdb s) (edit n none s.calls)
      between' =
          Flight.Between-commit (committed_id bdb s) (seen_id bdb s) n s.calls c i.between e next

  advance_call-Moves :
      (s : LeaderState bdb) (n : ℕ) (c : Call) (stage : Stage)
      → InFlight bdb s
      → IsWritten bdb s
      → get_elem? s.calls n ≡ some c
      → c.stage ≡ stage
      → seen_id bdb s + 1 < 2 ^ 32
      → Moves bdb s (advance_call bdb s n c stage).0 (advance_call bdb s n c stage).1
  unfolding advance_call store_call count_call
  advance_call-Moves s n c reserved i w e st lt =
      stays bdb s (submit_entry bdb s.comp s.srv s.db c.r c.type c.payload).1
        (submit_entry bdb s.comp s.srv s.db c.r c.type c.payload).2
        (stored_calls s.comp s.calls n c
          (submit_entry bdb s.comp s.srv s.db c.r c.type c.payload).0)
        (stored_calls-InFlight bdb s n c (submit_entry bdb s.comp s.srv s.db c.r c.type c.payload).0
          i e)
        (λ k a.
          stored_calls-Absent bdb s n c (submit_entry bdb s.comp s.srv s.db c.r c.type c.payload).0
            k e a)
  advance_call-Moves s n c (counting bit_map) i w e st lt =
      stays bdb s s.srv s.db (edit n (some c') s.calls)
        (edit-InFlight bdb s n c c' i e refl
          (λ is. absurd (stage_after-waits s.comp.group_size bit_map' is)))
        (λ k a. Flight.Absent-edit k n s.calls c' a (Flight.Absent-get k n s.calls c a e))
    where
      bit_map' : ℕ
      bit_map' = recheck c.r.next (s.srv.log.entries c.r.at).ack bit_map

      c' : Call
      c' = record c {
        stage =
            stage_after s.comp.group_size (recheck c.r.next (s.srv.log.entries c.r.at).ack bit_map);
      }
  advance_call-Moves s n c decided i w e st lt =
      wait_call-Moves s n c i e lt
        (Written-get s.srv.log.entries n s.calls c w e (λ was. ground (arith, st, was)))
  advance_call-Moves s n c passed i w e st lt = commit_call-Moves s n c i e st lt

  pub step-Moves :
      (s : LeaderState bdb) (event : Event bdb)
      → InFlight bdb s
      → IsWritten bdb s
      → seen_id bdb s + 1 < 2 ^ 32
      → Moves bdb s (step bdb s event).0 (step bdb s event).1
  unfolding step
  step-Moves s (enter size type clt_id payload) i w lt =
      enter_call-Moves s size type clt_id payload i lt
  step-Moves s (memory acks) i w lt =
      stays bdb s (record s.srv { log = acknowledged s.srv.log acks }) s.db s.calls i (λ k a. a)
  step-Moves s (advance n) i w lt = elim (Option-cases (get_elem? s.calls n)) [
    | inl gone ↦ rw (gone, step) (stays bdb s s.srv s.db s.calls i (λ k a. a))
    | inr (c, there) ↦ rw (there, step) (advance_call-Moves s n c c.stage i w there refl lt)
  ]
