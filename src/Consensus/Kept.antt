-- ===== src/Consensus/Kept.antt =====
-- A step of a thread keeps the stamps in the entries of the calls in flight.
use native.Mathlib.Omega.{arith}
use rdma_paxos.Prelude.{
  ℕ, ◌≡◌, ◌≢◌, refl, Bool-cases, Option-cases, inl, inr, List, [], ◌∷◌, ◌++◌, Option, none, some,
  get_elem?, ◌==◌, ==_refl,
}
use rdma_paxos.Log.{LogEntry, DareLog}
use rdma_paxos.Db.{BerkeleyDb, store_record}
use rdma_paxos.Consensus.Types.{ConsensusComponent, ServerData, Send}
use rdma_paxos.Consensus.Leader.{
  Reserved, reserve, place_entry, submit_entry, fill_entry, finish_entry, record_of, first_votes,
  may_commit,
}
use rdma_paxos.Consensus.Quorum.{recheck}
use rdma_paxos.Consensus.Threads.{
  Stage, reserved, counting, decided, passed, Call, stored_calls, stage_after, LeaderState, Event,
  enter_call, store_call, count_call, wait_call, commit_call, advance_call, entered, step, enter,
  memory, advance, IsFresh,
}
use rdma_paxos.Consensus.Written.{
  Written, Written-get, Written-same, Written-enter, Written-edit, Written-remove, Written-write,
}

placed_stamps :
    (log : DareLog) (data_size at : ℕ)
    → ((place_entry log data_size).entries at).msg_vs ≡ (log.entries at).msg_vs
unfolding place_entry
placed_stamps log data_size at = ground arith

module _ (bdb : BerkeleyDb) where
  module _ (comp : ConsensusComponent) (srv : ServerData) (db : Option (BerkeleyDb.Handle bdb))
      (r : Reserved) (type : ℕ) (payload : Option (List ℕ)) where
    pub filled_on :
        ((submit_entry bdb comp srv db r type payload).1.log.entries r.at).msg_vs ≡ r.next
    unfolding submit_entry fill_entry finish_entry
    filled_on =
        let filled = fill_entry comp r type payload (srv.log.entries r.at) in
        elim (Bool-cases ((store_record bdb db r.record_no (record_of filled)).0 == 0)) [
          | inl ok ↦ rw (ok, submit_entry) (ground (arith, ==_refl r.at))
          | inr failed ↦ rw (failed, submit_entry) (ground (arith, ==_refl r.at))
        ]

    filled_off :
        (at : ℕ)
        → r.at ≢ at
        → ((submit_entry bdb comp srv db r type payload).1.log.entries at).msg_vs
          ≡ (srv.log.entries at).msg_vs
    unfolding submit_entry
    filled_off at other =
        let filled = fill_entry comp r type payload (srv.log.entries r.at) in
        elim (Bool-cases ((store_record bdb db r.record_no (record_of filled)).0 == 0)) [
          | inl ok ↦ rw (ok, submit_entry) (ground (arith, other))
          | inr failed ↦ rw (failed, submit_entry) (ground (arith, other))
        ]

  abbrev pub IsWritten : LeaderState bdb → Type 0
  IsWritten s = Written s.srv.log.entries s.calls

  stored_calls-Written :
      (entries : ℕ → LogEntry) (comp : ConsensusComponent) (cs : List Call) (n : ℕ) (c : Call)
      (sends : Option (List Send))
      → (entries c.r.at).msg_vs ≡ c.r.next
      → Written entries cs
      → get_elem? cs n ≡ some c
      → Written entries (stored_calls comp cs n c sends)
  unfolding stored_calls
  stored_calls-Written entries comp cs n c none on w e = Written-remove entries n cs w
  stored_calls-Written entries comp cs n c (some writes) on w e =
      Written-edit entries n cs c (record c { stage = counting (first_votes comp) }) w e refl
        (λ is. on)

  advance_call-Written :
      (s : LeaderState bdb) (n : ℕ) (c : Call) (stage : Stage)
      → IsWritten s
      → get_elem? s.calls n ≡ some c
      → c.stage ≡ stage
      → IsWritten (advance_call bdb s n c stage).0
  unfolding advance_call store_call count_call wait_call commit_call
  advance_call-Written s n c reserved w e st =
      let t = submit_entry bdb s.comp s.srv s.db c.r c.type c.payload in
      let on = filled_on s.comp s.srv s.db c.r c.type c.payload in
      stored_calls-Written t.1.log.entries s.comp s.calls n c t.0 on
        (Written-write s.srv.log.entries t.1.log.entries n s.calls c
          (filled_off s.comp s.srv s.db c.r c.type c.payload) on w e)
        e
  advance_call-Written s n c (counting bit_map) w e st =
      Written-edit s.srv.log.entries n s.calls c
        (record c {
          stage =
              stage_after s.comp.group_size
                (recheck c.r.next (s.srv.log.entries c.r.at).ack bit_map);
        })
        w e refl
        (λ is. Written-get s.srv.log.entries n s.calls c w e (λ was. ground (arith, st, was)))
  advance_call-Written s n c decided w e st =
      elim (Bool-cases (may_commit s.comp (s.srv.log.entries c.r.at).msg_vs)) [
        | inl may ↦
            rw (may, advance_call, wait_call)
              (Written-edit s.srv.log.entries n s.calls c (record c { stage = passed }) w e refl
                (λ is.
                  Written-get s.srv.log.entries n s.calls c w e (λ was. ground (arith, st, was))))
        | inr waits ↦ rw (waits, advance_call, wait_call) w
      ]
  advance_call-Written s n c passed w e st = Written-remove s.srv.log.entries n s.calls w

  -- A step keeps the entries, unless a call enters at the place of one.
  pub step-IsWritten :
      (s : LeaderState bdb) (event : Event bdb)
      → IsWritten s
      → IsFresh bdb s event
      → IsWritten (step bdb s event).0
  unfolding step enter_call entered reserve
  step-IsWritten s (enter size type clt_id payload) w fresh =
      let c = entered s.comp s.srv size type clt_id payload in
      Written-same s.srv.log.entries (place_entry s.srv.log size).entries (s.calls ++ c ∷ [])
        (placed_stamps s.srv.log size) (Written-enter s.srv.log.entries s.calls c w fresh refl)
  step-IsWritten s (memory acks) w fresh =
      Written-same s.srv.log.entries (λ at. record (s.srv.log.entries at) { ack = acks at }) s.calls
        (λ at. refl) w
  step-IsWritten s (advance n) w fresh = elim (Option-cases (get_elem? s.calls n)) [
    | inl gone ↦ rw (gone, step) w
    | inr (c, there) ↦ rw (there, step) (advance_call-Written s n c c.stage w there refl)
  ]
