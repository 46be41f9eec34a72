-- ===== src/Consensus/Flowing.antt =====
-- The leader while no store fails: every stamp above the committed one has its call in flight.
use native.Mathlib.Omega.{arith}
use rdma_paxos.Prelude.{
  ℕ, zero, suc, ◌+◌, ◌^◌, ◌≤◌, ◌<◌, ◌≡◌, refl, ap, Bool-cases, Option-cases, inl, inr, List, [],
  ◌∷◌, Option, none, some, get_elem?, length, length-append,
}
use mathlib.Core.Option.{none-ne-some}
use rdma_paxos.Db.{BerkeleyDb, RequestRecord, store_record}
use rdma_paxos.Consensus.Types.{ConsensusComponent, ServerData}
use rdma_paxos.Consensus.Leader.{
  Reserved, get_next_view_stamp, reserve, submit_entry, fill_entry, record_of, may_commit, commit,
  first_votes,
}
use rdma_paxos.Consensus.Quorum.{recheck}
use rdma_paxos.Consensus.Threads.{
  Stage, reserved, counting, decided, passed, Call, edit, LeaderState, Event, enter_call,
  store_call, count_call, wait_call, commit_call, advance_call, step, run, IsFresh, AllFresh,
  entered, enter, memory, advance, stored_calls, stage_after,
}
use rdma_paxos.Consensus.Flight
use rdma_paxos.Consensus.InFlight.{committed_id, seen_id, InFlight}
use rdma_paxos.Consensus.Moves.{step-Moves}
use rdma_paxos.Consensus.Kept.{IsWritten, step-IsWritten}

length-edit : (n : ℕ) (c : Call) (cs : List Call) → length (edit n (some c) cs) ≡ length cs
unfolding edit
length-edit n c [] = refl
length-edit zero c (x ∷ xs) = refl
length-edit (suc n) c (x ∷ xs) = ap suc (length-edit n c xs)

length-remove :
    (n : ℕ) (c : Call) (cs : List Call)
    → get_elem? cs n ≡ some c
    → length (edit n none cs) + 1 ≡ length cs
unfolding edit
length-remove n c [] e = absurd (none-ne-some c e)
length-remove zero c (x ∷ xs) e = omega arith
length-remove (suc n) c (x ∷ xs) e = omega (arith, length-remove n c xs e)

module _ (bdb : BerkeleyDb) where
  -- A database to which every put succeeds.
  abbrev pub IsWritable : Type 0
  IsWritable = (h : BerkeleyDb.Handle bdb) (key : ℕ) (r : RequestRecord) → (bdb.put h key r).0 ≡ 0

  pub record IsFlowing (s : LeaderState bdb) : Type 0 where
    pub flight : InFlight bdb s
    pub written : IsWritten bdb s
    pub full : length s.calls + committed_id bdb s ≡ seen_id bdb s
    pub connected : (h : BerkeleyDb.Handle bdb) × (s.db ≡ some h)

  pub submit_entry-stored :
      (comp : ConsensusComponent) (srv : ServerData) (db : Option (BerkeleyDb.Handle bdb))
      (h : BerkeleyDb.Handle bdb) (r : Reserved) (type : ℕ) (payload : Option (List ℕ))
      → IsWritable
      → db ≡ some h
      → ((submit_entry bdb comp srv db r type payload).0 ≡ some r.sends)
        × ((h' : BerkeleyDb.Handle bdb) × ((submit_entry bdb comp srv db r type payload).2
              ≡ some h'))
  unfolding submit_entry store_record
  submit_entry-stored comp srv db h r type payload puts e =
      let filled = fill_entry comp r type payload (srv.log.entries r.at) in
      let ok = puts h r.record_no (record_of filled) in
      rw (e, ok, submit_entry, store_record)
        (refl, ((bdb.put h r.record_no (record_of filled)).1, refl))

  -- What a step leaves even.
  record Even (s s' : LeaderState bdb) : Type 0 where
    counts :
        length s'.calls + committed_id bdb s' + seen_id bdb s
        ≡ length s.calls + committed_id bdb s + seen_id bdb s'
    still : (h : BerkeleyDb.Handle bdb) × (s'.db ≡ some h)

  advance_call-Even :
      (s : LeaderState bdb) (n : ℕ) (c : Call) (stage : Stage)
      → IsWritable
      → IsFlowing s
      → get_elem? s.calls n ≡ some c
      → seen_id bdb s + 1 < 2 ^ 32
      → Even s (advance_call bdb s n c stage).0
  unfolding advance_call store_call count_call wait_call commit_call commit stored_calls
  advance_call-Even s n c reserved puts f e lt =
      let (h, open_db) = f.connected in
      let (ok, still) = submit_entry-stored s.comp s.srv s.db h c.r c.type c.payload puts open_db in
      let stored = ap (λ o. length (stored_calls s.comp s.calls n c o)) ok in
      let kept = length-edit n (record c { stage = counting (first_votes s.comp) }) s.calls in
      record { counts = omega (arith, stored, kept); still = still }
  advance_call-Even s n c (counting b) puts f e lt =
      let bit_map = recheck c.r.next (s.srv.log.entries c.r.at).ack b in
      let c' : Call = record c { stage = stage_after s.comp.group_size bit_map } in
      record { counts = omega (arith, length-edit n c' s.calls); still = f.connected }
  advance_call-Even s n c decided puts f e lt =
      elim (Bool-cases (may_commit s.comp (s.srv.log.entries c.r.at).msg_vs)) [
        | inl may ↦
            let kept = length-edit n (record c { stage = passed }) s.calls in
            rw (may, advance_call, wait_call)
              (record { counts = omega (arith, kept); still = f.connected })
        | inr waits ↦
            rw (waits, advance_call, wait_call)
              (record { counts = omega arith; still = f.connected })
      ]
  advance_call-Even s n c passed puts f e lt = record {
    counts = omega (
      arith,
      length-remove n c s.calls e,
      Flight.Between-get (committed_id bdb s) (seen_id bdb s) n s.calls c f.flight.between e,
    );
    still = f.connected;
  }

  step-Even :
      (s : LeaderState bdb) (event : Event bdb)
      → IsWritable
      → IsFlowing s
      → seen_id bdb s + 1 < 2 ^ 32
      → Even s (step bdb s event).0
  unfolding step enter_call reserve get_next_view_stamp
  step-Even s (enter size type clt_id payload) puts f lt =
      let c = entered s.comp s.srv size type clt_id payload in
      record { counts = omega (arith, length-append s.calls (c ∷ [])); still = f.connected }
  step-Even s (memory m) puts f lt = record { counts = omega arith; still = f.connected }
  step-Even s (advance n) puts f lt = elim (Option-cases (get_elem? s.calls n)) [
    | inl gone ↦ rw (gone, step) (record { counts = omega arith; still = f.connected })
    | inr (c, there) ↦ rw (there, step) (advance_call-Even s n c c.stage puts f there lt)
  ]

  pub step-IsFlowing :
      (s : LeaderState bdb) (event : Event bdb)
      → IsWritable
      → IsFlowing s
      → IsFresh bdb s event
      → seen_id bdb s + 1 < 2 ^ 32
      → IsFlowing (step bdb s event).0
  step-IsFlowing s event puts f fresh lt =
      let m = step-Moves bdb s event f.flight f.written lt in
      let e = step-Even s event puts f lt in
      record {
        flight = m.flight;
        written = step-IsWritten bdb s event f.written fresh;
        full = omega (arith, e.counts, f.full);
        connected = e.still;
      }

  pub run-IsFlowing :
      (s : LeaderState bdb) (events : List (Event bdb))
      → IsWritable
      → IsFlowing s
      → AllFresh bdb s events
      → seen_id bdb s + length events < 2 ^ 32
      → IsFlowing (run bdb s events).0
  unfolding run
  run-IsFlowing s [] puts f fresh lt = f
  run-IsFlowing s (e ∷ es) puts f fresh lt =
      let m = step-Moves bdb s e f.flight f.written (omega arith) in
      run-IsFlowing (step bdb s e).0 es puts (step-IsFlowing s e puts f fresh.0 (omega arith))
        fresh.1 (omega (arith, m.seen))

  pub run-seen :
      (s : LeaderState bdb) (events : List (Event bdb))
      → InFlight bdb s
      → IsWritten bdb s
      → AllFresh bdb s events
      → seen_id bdb s + length events < 2 ^ 32
      → seen_id bdb (run bdb s events).0 ≤ seen_id bdb s + length events
  unfolding run
  run-seen s [] i w fresh lt = omega arith
  run-seen s (e ∷ es) i w fresh lt =
      let m = step-Moves bdb s e i w (omega arith) in
      omega (
        arith,
        m.seen,
        run-seen (step bdb s e).0 es m.flight (step-IsWritten bdb s e w fresh.0) fresh.1
            (omega (arith, m.seen)),
      )
