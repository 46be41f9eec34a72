-- ===== src/Election/Turns.antt =====
-- What one callback of the loop does to the identifier of a server: `hb_receive_cb` and `polling`,
-- each after any writes of the other servers to its memory.
use native.Mathlib.Omega.{arith}
use rdma_paxos.Prelude.{
  ℕ, ◌+◌, ◌/◌, ◌^◌, ◌<◌, ◌≡◌, ◌∙◌, ◌⊎◌, inl, inr, refl, sym, ap, subst, ◌==◌, ==_refl, Bool-cases,
  ltb, if◌then◌else◌,
}
use rdma_paxos.Election.Sid.{sid_get_idx, sid_get_l, sid_set_l, sid_get_term}
use rdma_paxos.Election.Server.{
  VoteReq, Server, server_update_sid, next_sid, start_election, send_vote_request, hb_receive_cb,
  no_heartbeat, init_leader, stopped,
}
use rdma_paxos.Election.Poll.{
  vote_loop, settle, poll_vote_count, poll_vote_requests, polling, is_candidate,
}
use rdma_paxos.Election.Scan.{AllRequests}
use rdma_paxos.Election.Terms.{poll_vote_requests-VotesOnce}
use rdma_paxos.Election.Count.{updated, term_of, next_sid_lem, next_sid_fields}

-- The index and the identifier are in range.
abbrev pub IsNumbered : Server → Type 0
IsNumbered s = (s.idx < 256) × (s.sid < 2 ^ 63)

-- From `s` to `t`: the term goes up, or it stays with the server that the identifier names.
abbrev pub Advances : Server → Server → Type 0
Advances s t =
    (sid_get_term s.sid < sid_get_term t.sid)
    ⊎ ((sid_get_term s.sid ≡ sid_get_term t.sid) × (sid_get_idx s.sid ≡ sid_get_idx t.sid))

-- The memory that the other servers write to.
pub record Memory : Type 0 where
  pub vote_req : ℕ → VoteReq
  pub hb : ℕ → ℕ
  pub votes : ℕ → ℕ

abbrev pub written : Memory → Server → Server
written m s = record s { vote_req = m.vote_req; hb = m.hb; votes = m.votes }

start_election-idx : (s : Server) → (start_election s).1.idx ≡ s.idx
unfolding start_election send_vote_request
start_election-idx s = ap (λ x. x.idx) (updated s (next_sid s))

start_election-sid : (s : Server) → (start_election s).1.sid ≡ next_sid s
unfolding start_election send_vote_request
start_election-sid s = ap (λ x. x.sid) (updated s (next_sid s))

start_election-Advances :
    (s : Server)
    → IsNumbered s
    → s.sid / 512 + 1 < 2 ^ 54
    → IsNumbered (start_election s).1 × Advances s (start_election s).1
start_election-Advances s (li, ls) small =
    let e = start_election-sid s ∙ next_sid_lem s li ls in
    let f = next_sid_fields (start_election s).1.sid s.idx (s.sid / 512) li e in
    (
      (omega (arith, start_election-idx s), omega (arith, e)),
      inl (omega (arith, f.0, term_of s.sid)),
    )

pub hb_receive_cb-Advances :
    (s : Server)
    → IsNumbered s
    → s.sid / 512 + 1 < 2 ^ 54
    → IsNumbered (hb_receive_cb s).1 × Advances s (hb_receive_cb s).1
unfolding hb_receive_cb
hb_receive_cb-Advances s g small =
    let s' : Server = record s {
      hb = λ i. if ltb i s.size then (if i == s.idx then s.hb i else 0) else s.hb i;
      timer = stopped;
    } in
    elim (Bool-cases (s.idx == init_leader)) [
      | inl first ↦ rw (first, hb_receive_cb) (g, inr (refl, refl))
      | inr other ↦ elim (Bool-cases (no_heartbeat s.size s)) [
        | inl silent ↦ rw (other, silent, hb_receive_cb) (start_election-Advances s' g small)
        | inr heard ↦ rw (other, heard, hb_receive_cb) (g, inr (refl, refl))
      ]
    ]

poll_vote_requests-idx : (s : Server) → (poll_vote_requests s).1.idx ≡ s.idx
unfolding poll_vote_requests settle server_update_sid
poll_vote_requests-idx s = ground arith

poll_vote_requests-Advances :
    (s : Server)
    → AllRequests s.vote_req
    → IsNumbered s
    → IsNumbered (poll_vote_requests s).1 × Advances s (poll_vote_requests s).1
poll_vote_requests-Advances s all (li, ls) =
    let i = poll_vote_requests-idx s in
    elim (poll_vote_requests-VotesOnce s all li ls) [
      | inl (same, silent) ↦ (
        (omega (arith, i), omega (arith, same)),
        inr (ap sid_get_term (sym same), ap sid_get_idx (sym same)),
      )
      | inr (later, fits) ↦ ((omega (arith, i), fits), inl later)
    ]

-- A candidate that has won sets its leader flag and nothing else of the identifier.
flagged :
    (sid : ℕ)
    → sid < 2 ^ 63
    → sid_get_l sid ≡ 0
    → (sid_set_l sid < 2 ^ 63)
      × (sid_get_term sid ≡ sid_get_term (sid_set_l sid))
      × (sid_get_idx sid ≡ sid_get_idx (sid_set_l sid))
unfolding sid_get_l sid_set_l sid_get_term sid_get_idx
flagged sid lt l = (ground arith, ground arith, ground arith)

flag_keeps_term : (sid : ℕ) → sid_get_l sid ≡ 0 → sid_get_term (sid_set_l sid) ≡ sid_get_term sid
unfolding sid_get_l sid_set_l sid_get_term
flag_keeps_term sid l = ground arith

poll_vote_count-Advances :
    (s : Server)
    → sid_get_l s.sid ≡ 0
    → IsNumbered s
    → IsNumbered (poll_vote_count s) × Advances s (poll_vote_count s)
unfolding poll_vote_count server_update_sid
poll_vote_count-Advances s l (li, ls) =
    let f = flagged s.sid ls l in
    elim (Bool-cases (ltb (vote_loop s.size s) (s.size / 2 + 1))) [
      | inl few ↦ rw (few, poll_vote_count) ((li, ls), inr (refl, refl))
      | inr won ↦
          rw (won, ==_refl s.sid, poll_vote_count, server_update_sid) ((li, f.0), inr (f.1, f.2))
    ]

pub poll_vote_count-term :
    (s : Server) → sid_get_l s.sid ≡ 0 → sid_get_term (poll_vote_count s).sid ≡ sid_get_term s.sid
unfolding poll_vote_count server_update_sid
poll_vote_count-term s l = elim (Bool-cases (ltb (vote_loop s.size s) (s.size / 2 + 1))) [
  | inl few ↦ rw (few, poll_vote_count) refl
  | inr won ↦ rw (won, ==_refl s.sid, poll_vote_count, server_update_sid) (flag_keeps_term s.sid l)
]

poll_vote_count-vote_req : (s : Server) → (poll_vote_count s).vote_req ≡ s.vote_req
unfolding poll_vote_count server_update_sid
poll_vote_count-vote_req s = ground arith

Advances-trans : (s t u : Server) → Advances s t → Advances t u → Advances s u
Advances-trans s t u (inl up) (inl up') = inl (omega (arith, up, up'))
Advances-trans s t u (inl up) (inr (e, i)) = inl (omega (arith, up, e))
Advances-trans s t u (inr (e, i)) (inl up) = inl (omega (arith, up, e))
Advances-trans s t u (inr (e, i)) (inr (e', i')) = inr (e ∙ e', i ∙ i')

-- Neither callback takes the identifier back to an earlier term, or to another server in the same.
pub polling-Advances :
    (s : Server)
    → AllRequests s.vote_req
    → IsNumbered s
    → IsNumbered (polling s).1 × Advances s (polling s).1
unfolding polling is_candidate
polling-Advances s all g = elim (Bool-cases (is_candidate s)) [
  | inl standing ↦
      let (g', a) = poll_vote_count-Advances s (ground (arith, standing)) g in
      let all' : AllRequests (poll_vote_count s).vote_req =
        subst AllRequests (sym (poll_vote_count-vote_req s)) all in
      let (g'', a') = poll_vote_requests-Advances (poll_vote_count s) all' g' in
      rw (standing, polling)
        (g'', Advances-trans s (poll_vote_count s) (poll_vote_requests (poll_vote_count s)).1 a a')
  | inr waiting ↦ rw (waiting, polling) (poll_vote_requests-Advances s all g)
]
