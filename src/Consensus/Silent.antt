-- ===== src/Consensus/Silent.antt =====
-- A replica with a new log, to which nothing is written at its beginning.
use native.Mathlib.Omega.{arith}
use rdma_paxos.Prelude.{
  ℕ, ◌+◌, ◌-◌, ◌≤◌, ◌<◌, ◌≡◌, ◌≢◌, ◌==◌, refl, ap, ◌∙◌, false, List, [], ◌∷◌, some, ℤ, Bool-cases,
  ◌⊎◌, inl, inr, sub64,
}
use rdma_paxos.ViewStamp.{ViewStamp}
use rdma_paxos.Log.{
  LogEntry, DareLog, log_new, log_size, entry_header_size, log_get_entry, log_fit_entry_header,
}
use rdma_paxos.Db.{BerkeleyDb}
use rdma_paxos.Consensus.Leader.{place_entry}
use rdma_paxos.Consensus.Replica.{
  is_complete, ReplicaState, accept_round, accept_rounds, idle, located, overwritten,
}

-- A log whose next entry is looked for at its beginning.
pub record AtStart (log : DareLog) : Type 0 where
  pub looks : log_get_entry log log.end ≡ 0
  pub long : entry_header_size ≤ log.len
  pub short : log.len ≤ log_size

pub log_new-AtStart : (log : DareLog) → log ≡ log_new → AtStart log
unfolding log_new log_get_entry log_fit_entry_header
log_new-AtStart log e = record {
  looks = rw e refl;
  long = rw e (omega arith);
  short = rw e (omega arith);
}

-- It stays there once `end` is set.
AtStart-located :
    (log : DareLog) → AtStart log → AtStart (record log { end = log_get_entry log log.end })
unfolding log_get_entry log_fit_entry_header
AtStart-located log a = record { looks = rw a.looks (ground arith); long = a.long; short = a.short }

AtStart-entries :
    (log : DareLog) (memory : ℕ → LogEntry)
    → AtStart log
    → log_get_entry (record log { entries = memory }) log.end ≡ 0
unfolding log_get_entry log_fit_entry_header
AtStart-entries log memory a = a.looks

-- No entry is complete at the beginning of any of the memories.
abbrev pub AllBare : List (ℕ → LogEntry) → Type 0
AllBare [] = Unit
AllBare (memory ∷ later) = (is_complete (memory 0) ≡ false) × AllBare later

module _ (bdb : BerkeleyDb) (ug : ViewStamp → ℕ) (get_output_hash : ℕ → ℤ → ℕ) where
  accept_round_bare :
      (s : ReplicaState bdb)
      → AtStart s.srv.log
      → is_complete (s.srv.log.entries 0) ≡ false
      → accept_round bdb ug get_output_hash s ≡ some (idle bdb ug get_output_hash s)
        ⊎ accept_round bdb ug get_output_hash s
          ≡ some (idle bdb ug get_output_hash (located bdb ug get_output_hash s))
  unfolding accept_round
  accept_round_bare s a bare = elim (Bool-cases (s.comp.cur_view.leader_id == s.comp.node_id)) [
    | inl leads ↦ inl (rw leads refl)
    | inr follows ↦
        let part : is_complete (s.srv.log.entries (log_get_entry s.srv.log s.srv.log.end)) ≡ false =
          ap (λ k. is_complete (s.srv.log.entries k)) a.looks ∙ bare in
        inr (rw (follows, part) refl)
  ]

  -- Rounds that store nothing and apply nothing.
  abbrev pub Quiet : ReplicaState bdb → List (ℕ → LogEntry) → Type 0
  Quiet s memories =
      (s' : ReplicaState bdb) × (accept_rounds bdb ug get_output_hash s memories ≡ some (s', []))
      × (s'.db ≡ s.db)
      × (s'.comp ≡ s.comp)

  pub accept_rounds_bare :
      (s : ReplicaState bdb) (memories : List (ℕ → LogEntry))
      → AtStart s.srv.log
      → AllBare memories
      → Quiet s memories
  unfolding accept_rounds
  accept_rounds_bare s [] a bare = (s, refl, refl, refl)
  accept_rounds_bare s (memory ∷ later) a bare =
      let t = overwritten bdb ug get_output_hash s memory in
      let at_start : AtStart t.srv.log = record {
        looks = AtStart-entries s.srv.log memory a;
        long = a.long;
        short = a.short;
      } in
      elim (accept_round_bare t at_start bare.0) [
        | inl stays ↦
            let (s', e, db, comp) = accept_rounds_bare t later at_start bare.1 in
            (s', rw (stays, accept_rounds, e) refl, db, comp)
        | inr moves ↦
            let (s', e, db, comp) =
              accept_rounds_bare (located bdb ug get_output_hash t) later
                (AtStart-located t.srv.log at_start) bare.1 in
            (s', rw (moves, accept_rounds, e) refl, db, comp)
      ]

-- A leader whose log is written up to some place inside it puts the next entry there.
pub place_entry_inside :
    (log : DareLog) (n : ℕ)
    → log.len ≡ log_size
    → 0 < log.end
    → log.end + entry_header_size ≤ log.len
    → (place_entry log n).tail ≢ 0
unfolding place_entry log_fit_entry_header
place_entry_inside log n size pos fits = ground (arith, room)
  where
    room : sub64 log.len log.end ≡ log.len - log.end
    room = omega (arith, size, fits)
