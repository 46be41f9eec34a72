-- ===== src/Election/Terms.antt =====
-- A server that changes its identifier while it polls the vote requests goes to a higher term, so it
-- votes once in a term.
use native.Mathlib.Omega.{arith}
use rdma_paxos.Prelude.{
  ℕ, ◌+◌, ◌/◌, ◌%◌, ◌^◌, ◌≤◌, ◌<◌, ◌≡◌, ◌≢◌, ◌⊎◌, inl, inr, refl, sym, subst, ◌==◌, true, List, [],
  Bool-cases,
}
use rdma_paxos.Election.Sid.{sid_set_idx, sid_get_l, sid_set_l, sid_get_term, sid_set_term}
use rdma_paxos.Election.Server.{Server, Message, server_update_sid}
use rdma_paxos.Election.Poll.{
  Scanned, scan, Choice, first_choice, own_choice, settle, poll_vote_requests,
}
use rdma_paxos.Election.Scan.{
  AllRequests, Above, IsScanned, scan-IsScanned, IsChoice, choose-IsChoice,
}

-- An identifier above the own one with its leader flag set is of a later term.
Above-term :
    (sid old best : ℕ)
    → sid / 256 % 2 ≡ 0
    → old ≡ sid + 256
    → Above old best
    → best ≢ old
    → sid / 512 < best / 512
Above-term sid old best l e (inl same) ne = absurd (ne same)
Above-term sid old best l e (inr u) ne = omega (arith, e, u.0, u.1)

raised_term :
    (sid idx term : ℕ)
    → idx < 256
    → term < 2 ^ 54
    → sid / 512 + 1 ≤ term
    → (sid_get_term sid < sid_get_term (sid_set_idx (sid_set_term sid term) idx))
      × (sid_set_idx (sid_set_term sid term) idx < 2 ^ 63)
unfolding sid_get_term sid_set_term sid_set_idx
raised_term sid idx term li lt le = (omega arith, omega arith)

server_update_sid_lem :
    (s : Server) (new_sid : ℕ) → (server_update_sid s new_sid s.sid).sid ≡ new_sid
unfolding server_update_sid
server_update_sid_lem s new_sid = ground arith

-- What polling the requests may do to a server: nothing is sent and the identifier stays, or it goes
-- to a later term and stays in range.
abbrev pub VotesOnce : Server → List Message × Server → Type 0
VotesOnce s out =
    ((out.1.sid ≡ s.sid) × (out.0 ≡ []))
    ⊎ ((sid_get_term s.sid < sid_get_term out.1.sid) × (out.1.sid < 2 ^ 63))

Above-later : (sid best : ℕ) → sid / 512 < best / 512 → sid_get_term sid < sid_get_term best
unfolding sid_get_term
Above-later sid best lt = lt

Above-fits :
    (sid old best : ℕ)
    → sid < 2 ^ 63
    → old ≡ sid + 256
    → Above old best
    → best ≢ old
    → best < 2 ^ 63
Above-fits sid old best ls e (inl same) ne = absurd (ne same)
Above-fits sid old best ls e (inr u) ne = u.2

settle-VotesOnce :
    (s : Server) (old : ℕ) (c : Choice)
    → s.idx < 256
    → s.sid / 256 % 2 ≡ 0
    → s.sid < 2 ^ 63
    → old ≡ s.sid + 256
    → IsChoice old (s.sid / 512 + 1) c
    → VotesOnce s (settle s old c)
unfolding settle
settle-VotesOnce s old c li l ls e g = elim (Bool-cases (c.best.sid == old)) [
  | inl own ↦
      rw (own, settle)
        (inr (
          subst (λ k. (sid_get_term s.sid < sid_get_term k) × (k < 2 ^ 63))
            (sym (
              server_update_sid_lem (record s { vote_req = c.reqs })
                (sid_set_idx (sid_set_term s.sid c.highest_term) s.idx)))
            (raised_term s.sid s.idx c.highest_term li g.small g.risen)))
  | inr other ↦
      rw (other, settle)
        (inr (
          subst (λ k. (sid_get_term s.sid < sid_get_term k) × (k < 2 ^ 63))
            (sym (server_update_sid_lem (record s { vote_req = c.reqs }) c.best.sid))
            (
              Above-later s.sid c.best.sid
                  (Above-term s.sid old c.best.sid l e g.higher (ground (arith, other))),
              Above-fits s.sid old c.best.sid ls e g.higher (ground (arith, other)),
            )))
]

first_choice-IsChoice :
    (s : Server) (old : ℕ) (f : Scanned)
    → s.sid / 256 % 2 ≡ 0
    → s.sid < 2 ^ 63
    → old ≡ s.sid + 256
    → IsScanned old f
    → f.best_sid ≢ old
    → IsChoice old (s.sid / 512 + 1) (first_choice s old f)
unfolding first_choice sid_get_term
first_choice-IsChoice s old f l ls e g ne =
    choose-IsChoice s.size old (s.sid / 512 + 1) (own_choice s old f) (record {
      higher = inl refl;
      risen = omega (arith, Above-term s.sid old f.best_sid l e g.higher ne);
      small = omega (
        arith,
        Above-term s.sid old f.best_sid l e g.higher ne,
        Above-fits s.sid old f.best_sid ls e g.higher ne,
      );
      all = g.all;
    })

no_leader : (sid : ℕ) → sid_get_l sid == 0 ≡ true → sid / 256 % 2 ≡ 0
unfolding sid_get_l
no_leader sid free = ground arith

with_l : (sid : ℕ) → sid_get_l sid == 0 ≡ true → sid_set_l sid ≡ sid + 256
unfolding sid_set_l
with_l sid free = ground arith

-- Polling the vote requests, where every request is one that a server sends or empty, either sends
-- nothing and leaves the identifier, or takes the server to a later term: no two votes are given in
-- one term. The identifier stays in range.
pub poll_vote_requests-VotesOnce :
    (s : Server)
    → AllRequests s.vote_req
    → s.idx < 256
    → s.sid < 2 ^ 63
    → VotesOnce s (poll_vote_requests s)
unfolding poll_vote_requests
poll_vote_requests-VotesOnce s all li ls = elim (Bool-cases (sid_get_l s.sid == 0)) [
  | inl free ↦
      let old = sid_set_l s.sid in
      let g = scan-IsScanned s.size s old all in
      elim (Bool-cases ((scan s.size s old).best_sid == old)) [
        | inl same ↦ rw (free, same, poll_vote_requests) (inl (refl, refl))
        | inr found ↦
            rw (free, found, poll_vote_requests)
              (settle-VotesOnce s old (first_choice s old (scan s.size s old)) li
                (no_leader s.sid free) ls (with_l s.sid free)
                (first_choice-IsChoice s old (scan s.size s old) (no_leader s.sid free) ls
                  (with_l s.sid free) g (ground (arith, found))))
      ]
  | inr taken ↦ rw (taken, poll_vote_requests) (inl (refl, refl))
]
