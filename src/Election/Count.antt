-- ===== src/Election/Count.antt =====
-- The start of an election and the count of its votes.
use native.Mathlib.Omega.{arith}
use rdma_paxos.Prelude.{
  ℕ, zero, suc, ◌+◌, ◌/◌, ◌^◌, ◌≤◌, ◌<◌, ◌≡◌, ◌∙◌, ◌↔◌, refl, ap, sym, ◌==◌, ==_refl, ◌*◌,
  if◌then◌else◌, Bool, true, false, count_below, count_below-le,
}
use rdma_paxos.Election.Sid.{
  sid_get_idx, sid_set_idx, sid_get_l, sid_set_l, sid_unset_l, sid_get_term, sid_set_term,
}
use rdma_paxos.Election.Server.{
  Server, server_update_sid, next_sid, start_election, send_vote_request,
}
use rdma_paxos.Election.Poll.{vote_loop, poll_vote_count}

-- Another server has written its vote.
unfoldable pub has_voted : Server → ℕ → Bool
has_voted s i = if i == s.idx then false else if s.len == s.votes i then false else true

vote_loop_lem : (n : ℕ) (s : Server) → n < 255 → vote_loop n s ≡ 1 + count_below n (has_voted s)
unfolding vote_loop count_below has_voted
vote_loop_lem zero s lt = refl
vote_loop_lem (suc n) s lt =
    ground (arith, vote_loop_lem n s (omega arith), count_below-le n (has_voted s))

elected_sid :
    (s : Server)
    → sid_get_l s.sid ≡ 0
    → sid_get_l (server_update_sid s (sid_set_l s.sid) s.sid).sid ≡ 1
unfolding server_update_sid sid_set_l
elected_sid s l = ground arith

-- A candidate without leader flag, in a group of less than 255 servers, sets the flag just when the
-- slots of the group that differ from the length of its own log, which is what the code takes for
-- votes, are, with one more for itself, more than half of the group.
pub poll_vote_count-majority :
    (s : Server)
    → sid_get_l s.sid ≡ 0
    → s.size < 255
    → (sid_get_l (poll_vote_count s).sid ≡ 1)
      ↔ (s.size / 2 + 1 ≤ 1 + count_below s.size (has_voted s))
unfolding poll_vote_count
poll_vote_count-majority s l lt = ground (arith, vote_loop_lem s.size s lt, elected_sid s l)

cleared :
    (n size : ℕ) (s : Server)
    → n ≤ size
    → ((i : ℕ) → i < size → s.votes i ≡ s.len)
    → count_below n (has_voted s) ≡ 0
unfolding count_below has_voted
cleared zero size s le h = refl
cleared (suc n) size s le h = ground (arith, cleared n size s (omega arith) h, h n (omega arith))

pub next_sid_lem :
    (s : Server) → s.idx < 256 → s.sid < 2 ^ 63 → next_sid s ≡ s.idx + (s.sid / 512 + 1) * 512
unfolding next_sid sid_get_term sid_set_term sid_unset_l sid_set_idx
next_sid_lem s li ls = ground arith

pub next_sid_fields :
    (sid idx term : ℕ)
    → idx < 256
    → sid ≡ idx + (term + 1) * 512
    → (sid_get_term sid ≡ term + 1) × (sid_get_l sid ≡ 0) × (sid_get_idx sid ≡ idx)
unfolding sid_get_term sid_get_l sid_get_idx
next_sid_fields sid idx term li e = (omega arith, omega arith, omega arith)

pub updated :
    (s : Server) (new_sid : ℕ) → server_update_sid s new_sid s.sid ≡ record s { sid = new_sid }
unfolding server_update_sid
updated s new_sid = rw (==_refl s.sid, server_update_sid) refl

pub term_of : (sid : ℕ) → sid_get_term sid ≡ sid / 512
unfolding sid_get_term
term_of sid = refl

no_votes : (s : Server) → count_below (start_election s).1.size (has_voted (start_election s).1) ≡ 0
unfolding start_election send_vote_request
no_votes s =
    cleared (start_election s).1.size s.size (start_election s).1
      (omega (arith, ap (λ x. x.size) (updated s (next_sid s))))
      (λ i lt. ground (arith, ap (λ x. x.len) (updated s (next_sid s))))

-- An election that a server of index below 256 starts is of the next term, without a leader, with
-- the server as its candidate, and no vote of an election before is counted in it.
pub start_election_lem :
    (s : Server)
    → s.idx < 256
    → s.sid < 2 ^ 63
    → let s' = (start_election s).1 in
      (sid_get_term s'.sid ≡ sid_get_term s.sid + 1)
      × (sid_get_l s'.sid ≡ 0)
      × (sid_get_idx s'.sid ≡ s.idx)
      × (count_below s'.size (has_voted s') ≡ 0)
unfolding start_election send_vote_request
start_election_lem s li ls = (
  ap sid_get_term sid_is ∙ e.0 ∙ ap (λ t. t + 1) (sym (term_of s.sid)),
  ap sid_get_l sid_is ∙ e.1,
  ap sid_get_idx sid_is ∙ e.2,
  no_votes s,
)
  where
    sid_is : (server_update_sid s (next_sid s) s.sid).sid ≡ next_sid s
    sid_is = ap (λ x. x.sid) (updated s (next_sid s))

    e :
        (sid_get_term (next_sid s) ≡ s.sid / 512 + 1)
        × (sid_get_l (next_sid s) ≡ 0)
        × (sid_get_idx (next_sid s) ≡ s.idx)
    e = next_sid_fields (next_sid s) s.idx (s.sid / 512) li (next_sid_lem s li ls)
