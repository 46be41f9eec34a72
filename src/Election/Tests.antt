-- ===== src/Election/Tests.antt =====
-- A server of three that polls a request, and the theorems over it.
use native.Mathlib.Omega.{arith}
use rdma_paxos.Prelude.{
  ℕ, ◌+◌, ◌/◌, ◌≤◌, ◌⊎◌, true, List, ◌≡◌, ◌↔◌, refl, false, ◌==◌, if◌then◌else◌, count_below, ◌∷◌,
  [],
}
use rdma_paxos.Election.Sid.{
  sid_get_idx, sid_get_l, sid_get_term, sid_set_l, sid_set_term, sid_set_idx,
}
use rdma_paxos.Election.Server.{
  Server, VoteReq, receiving, server_update_sid, send_vote_ack, vote_ack,
}
use rdma_paxos.Election.Poll.{
  poll_vote_count, poll_vote_requests, scan, scan_step, choose, consider, first_choice, settle,
  is_better, vote_loop, polling, is_candidate,
}
use rdma_paxos.Election.Scan.{IsRequest}
use rdma_paxos.Election.Terms.{VotesOnce, poll_vote_requests-VotesOnce}
use rdma_paxos.Election.Turns.{Memory, written}
use rdma_paxos.Election.Run.{History, start, next, poll, names, backs, backs_unique, one_winner}
use rdma_paxos.Election.Stale.{poll_vote_requests-votes, raise-keeps_votes}
use rdma_paxos.Election.Count.{has_voted, poll_vote_count-majority}

-- Server 2 of 3 in term 1; server 1 is a candidate of term 2.
abbrev candidate : VoteReq
candidate = record { sid = 1025; index = 1; term = 1 }

abbrev nothing : VoteReq
nothing = record { sid = 0; index = 0; term = 0 }

abbrev third : Server
third = record {
  idx = 2;
  size = 3;
  len = 1000;
  end = 40;
  sid = 514;
  vote_req = λ i. if i == 1 then candidate else nothing;
  hb = λ i. 0;
  votes = λ i. if i == 1 then 40 else 1000;
  timer = receiving;
  poll_on = false;
}

requests : (i : ℕ) → IsRequest (third.vote_req i)
requests i = record { no_leader = ground arith; fits = ground arith }

poll_vote_requests-VotesOnce_example : VotesOnce third (poll_vote_requests third)
poll_vote_requests-VotesOnce_example =
    poll_vote_requests-VotesOnce third requests (omega arith) (omega arith)

vote-third : (poll_vote_requests third).0 ≡ vote_ack 1 40 ∷ []
unfolding poll_vote_requests sid_get_l sid_set_l scan scan_step first_choice choose consider
    is_better settle server_update_sid send_vote_ack sid_get_idx
vote-third = refl

poll_vote_count-majority_example :
    (sid_get_l (poll_vote_count third).sid ≡ 1) ↔ (3 / 2 + 1 ≤ 1 + count_below 3 (has_voted third))
unfolding sid_get_l
poll_vote_count-majority_example = poll_vote_count-majority third refl (omega arith)

poll_vote_requests-votes_example :
    ((poll_vote_requests third).0 ≡ [])
    ⊎ ((poll_vote_requests third).0
        ≡ vote_ack (sid_get_idx (poll_vote_requests third).1.sid) 40 ∷ [])
poll_vote_requests-votes_example = poll_vote_requests-votes third

abbrev asked : Memory
asked = record { vote_req = third.vote_req; hb = third.hb; votes = λ i. 1000 }

-- The server before and after its vote for server 1 in term 2.
abbrev life : List Server
life = (polling (written asked third)).1 ∷ third ∷ []

life-History : History life
life-History = next (start third (omega arith, omega arith)) (poll asked requests refl)

life-backs : backs 2 1 life ≡ true
unfolding backs names polling is_candidate poll_vote_count vote_loop poll_vote_requests sid_get_l
    sid_set_l scan scan_step first_choice choose consider is_better settle server_update_sid
    send_vote_ack sid_get_idx sid_get_term
life-backs = refl

backs_unique_example : ◌≡◌ {A = ℕ} 1 1
backs_unique_example = backs_unique 2 1 1 life life-History life-backs life-backs

all_back : 3 / 2 + 1 ≤ count_below 3 (λ i. backs 2 1 life)
unfolding count_below
all_back = rw life-backs (omega arith)

one_winner_example : ◌≡◌ {A = ℕ} 1 1
one_winner_example = one_winner 3 2 1 1 (λ i. life) (λ i lt. life-History) all_back all_back

-- Server 1 of 5 is a candidate of term 2, servers 3 and 4 have voted for it, and server 2 asks for
-- votes in term 3.
abbrev preferred : Server
preferred = record {
  idx = 1;
  size = 5;
  len = 1000;
  end = 40;
  sid = 1025;
  vote_req = λ i. if i == 2 then record { sid = 1538; index = 0; term = 1 } else nothing;
  hb = λ i. 0;
  votes = λ i. if i == 3 then 40 else if i == 4 then 40 else 1000;
  timer = receiving;
  poll_on = true;
}

stays_silent : (poll_vote_requests preferred).0 ≡ []
unfolding poll_vote_requests sid_get_l sid_set_l scan scan_step first_choice choose consider
    is_better settle server_update_sid send_vote_ack sid_get_idx sid_get_term sid_set_term
    sid_set_idx
stays_silent = refl

two_votes : 5 / 2 + 1 ≤ 1 + count_below 5 (has_voted preferred)
unfolding count_below has_voted
two_votes = omega arith

own_term : sid_get_term preferred.sid ≡ 2
unfolding sid_get_term
own_term = refl

no_flag : sid_get_l preferred.sid ≡ 0
unfolding sid_get_l
no_flag = refl

raised : sid_get_term (poll_vote_requests preferred).1.sid ≡ 3
unfolding poll_vote_requests sid_get_l sid_set_l scan scan_step first_choice choose consider
    is_better settle server_update_sid send_vote_ack sid_get_idx sid_get_term sid_set_term
    sid_set_idx
raised = refl

raise-keeps_votes_example :
    let t = (poll_vote_requests preferred).1 in
    (is_candidate t ≡ true)
    × (sid_get_l (poll_vote_count t).sid ≡ 1)
    × (sid_get_term (poll_vote_count t).sid ≡ sid_get_term t.sid)
raise-keeps_votes_example =
    raise-keeps_votes preferred (omega arith) (omega arith) no_flag stays_silent
      (omega (arith, own_term, raised)) two_votes
