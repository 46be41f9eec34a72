-- ===== src/Election/Stale.antt =====
-- To whom votes are sent, and which votes are counted after a server has raised its own term.
use native.Mathlib.Omega.{arith}
use rdma_paxos.Prelude.{
  ℕ, ◌+◌, ◌/◌, ◌%◌, ◌≤◌, ◌<◌, ◌≡◌, ◌⊎◌, inl, inr, refl, ◌==◌, ==_refl, true, Bool-cases, [], ◌∷◌,
  count_below, count_below_ext,
}
use rdma_paxos.Election.Sid.{
  sid_get_idx, sid_get_l, sid_set_l, sid_get_term, sid_set_idx, sid_set_term,
}
use rdma_paxos.Election.Server.{Server, vote_ack, server_update_sid, send_vote_ack}
use rdma_paxos.Election.Poll.{
  Choice, settle, first_choice, scan, poll_vote_count, poll_vote_requests, is_candidate,
}
use rdma_paxos.Election.Count.{has_voted, poll_vote_count-majority}
use rdma_paxos.Election.Turns.{poll_vote_count-term}

-- The vote, if there is one, is for the server that the new identifier names.
settle-votes :
    (s : Server) (old : ℕ) (c : Choice)
    → ((settle s old c).0 ≡ [])
      ⊎ ((settle s old c).0 ≡ vote_ack (sid_get_idx (settle s old c).1.sid) s.end ∷ [])
unfolding settle send_vote_ack server_update_sid
settle-votes s old c = elim (Bool-cases (c.best.sid == old)) [
  | inl own ↦ inl (rw (own, settle) refl)
  | inr other ↦ inr (rw (other, ==_refl s.sid, settle, send_vote_ack, server_update_sid) refl)
]

-- What the polling of the requests sends is nothing, or one vote: to the server that the new
-- identifier names, with the log end of the voter.
pub poll_vote_requests-votes :
    (s : Server)
    → ((poll_vote_requests s).0 ≡ [])
      ⊎ ((poll_vote_requests s).0 ≡ vote_ack (sid_get_idx (poll_vote_requests s).1.sid) s.end ∷ [])
unfolding poll_vote_requests
poll_vote_requests-votes s =
    let old = sid_set_l s.sid in
    elim (Bool-cases (sid_get_l s.sid == 0)) [
      | inl free ↦ elim (Bool-cases ((scan s.size s old).best_sid == old)) [
        | inl same ↦ inl (rw (free, same, poll_vote_requests) refl)
        | inr found ↦
            rw (free, found, poll_vote_requests)
              (settle-votes s old (first_choice s old (scan s.size s old)))
      ]
      | inr taken ↦ inl (rw (taken, poll_vote_requests) refl)
    ]

no_flag : (sid : ℕ) → sid_get_l sid ≡ 0 → sid / 256 % 2 ≡ 0
unfolding sid_get_l
no_flag sid l = ground arith

-- The identifier of a raised term is without a leader and names the server itself.
raised_fields :
    (sid idx term : ℕ)
    → idx < 256
    → sid / 256 % 2 ≡ 0
    → (sid_get_l (sid_set_idx (sid_set_term sid term) idx) ≡ 0)
      × (sid_get_idx (sid_set_idx (sid_set_term sid term) idx) ≡ idx)
unfolding sid_get_l sid_get_idx sid_set_term sid_set_idx
raised_fields sid idx term li l = (omega arith, omega arith)

settle-raised :
    (s : Server) (old : ℕ) (c : Choice)
    → s.idx < 256
    → s.sid / 256 % 2 ≡ 0
    → (settle s old c).0 ≡ []
    → (sid_get_l (settle s old c).1.sid ≡ 0) × (sid_get_idx (settle s old c).1.sid ≡ s.idx)
unfolding settle send_vote_ack server_update_sid
settle-raised s old c li l = elim (Bool-cases (c.best.sid == old)) [
  | inl own ↦
      rw (own, ==_refl s.sid, settle, server_update_sid)
        (λ silent. raised_fields s.sid s.idx c.highest_term li l)
  | inr other ↦ rw (other, settle, send_vote_ack) (λ silent. absurd (ground (arith, silent)))
]

poll_vote_requests-raised :
    (s : Server)
    → s.idx < 256
    → s.sid / 256 % 2 ≡ 0
    → (poll_vote_requests s).0 ≡ []
    → sid_get_term s.sid < sid_get_term (poll_vote_requests s).1.sid
    → (sid_get_l (poll_vote_requests s).1.sid ≡ 0)
      × (sid_get_idx (poll_vote_requests s).1.sid ≡ s.idx)
unfolding poll_vote_requests
poll_vote_requests-raised s li l =
    let old = sid_set_l s.sid in
    elim (Bool-cases (sid_get_l s.sid == 0)) [
      | inl free ↦ elim (Bool-cases ((scan s.size s old).best_sid == old)) [
        | inl same ↦ rw (free, same, poll_vote_requests) (λ silent up. absurd (omega (arith, up)))
        | inr found ↦
            rw (free, found, poll_vote_requests)
              (λ silent up.
                settle-raised s old (first_choice s old (scan s.size s old)) li l silent)
      ]
      | inr taken ↦ rw (taken, poll_vote_requests) (λ silent up. absurd (omega (arith, up)))
    ]

kept :
    (s : Server)
    → ((poll_vote_requests s).1.votes ≡ s.votes)
      × ((poll_vote_requests s).1.len ≡ s.len)
      × ((poll_vote_requests s).1.size ≡ s.size)
      × ((poll_vote_requests s).1.idx ≡ s.idx)
unfolding poll_vote_requests settle server_update_sid
kept s = ground arith

still_voted : (s : Server) (i : ℕ) → has_voted (poll_vote_requests s).1 i ≡ has_voted s i
unfolding has_voted
still_voted s i = let k = kept s in rw (k.0, k.1, k.3) refl

-- A server without leader flag that raises its own term, since the requests are of later terms but
-- its log is better, still has the vote slots of before: if those that differ from the length of its
-- log are a majority with its own, it is a candidate, and the count of its next polling sets its
-- leader flag in the raised term, with no slot written since.
pub raise-keeps_votes :
    (s : Server)
    → s.idx < 256
    → s.size < 255
    → sid_get_l s.sid ≡ 0
    → (poll_vote_requests s).0 ≡ []
    → sid_get_term s.sid < sid_get_term (poll_vote_requests s).1.sid
    → s.size / 2 + 1 ≤ 1 + count_below s.size (has_voted s)
    → let t = (poll_vote_requests s).1 in
      (is_candidate t ≡ true)
      × (sid_get_l (poll_vote_count t).sid ≡ 1)
      × (sid_get_term (poll_vote_count t).sid ≡ sid_get_term t.sid)
unfolding is_candidate
raise-keeps_votes s li ls l silent up majority =
    let t = (poll_vote_requests s).1 in
    let (free, own) = poll_vote_requests-raised s li (no_flag s.sid l) silent up in
    let k = kept s in
    let same : count_below s.size (has_voted t) ≡ count_below s.size (has_voted s) =
      count_below_ext s.size (has_voted t) (has_voted s) (λ i lt. still_voted s i) in
    (
      ground (arith, own, free, k.3),
      (poll_vote_count-majority t free (omega (arith, k.2, ls))).1
          (rw k.2 (omega (arith, same, majority))),
      poll_vote_count-term t free,
    )
