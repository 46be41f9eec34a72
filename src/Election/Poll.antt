-- ===== src/Election/Poll.antt =====
-- `polling`: the votes are counted and the vote requests are looked at.
use rdma_paxos.Prelude.{
  ℕ, zero, suc, ◌+◌, ◌/◌, ◌==◌, if◌then◌else◌, Bool, ◌&&◌, ◌||◌, List, [], update, ltb, leb, u8,
}
use rdma_paxos.Election.Sid.{
  sid_get_idx, sid_set_idx, sid_get_l, sid_set_l, sid_get_term, sid_set_term,
}
use rdma_paxos.Election.Server.{
  VoteReq, Server, Message, receiving, sending, fixed_leader, server_update_sid, send_vote_ack,
}

-- The loop of `poll_vote_count`: `vote_count` after the servers below `n`.
unfoldable pub vote_loop : ℕ → Server → ℕ
vote_loop zero s = 1
vote_loop (suc n) s =
    let before = vote_loop n s in
    if n == s.idx then before else if s.len == s.votes n then before else u8 (before + 1)

unfoldable pub poll_vote_count : Server → Server
poll_vote_count s =
    if ltb (vote_loop s.size s) (s.size / 2 + 1)
    then s
    else record (server_update_sid s (sid_set_l s.sid) s.sid) { timer = sending }

abbrev pub dropped : VoteReq → VoteReq
dropped r = record r { sid = 0 }

-- The best identifier so far, with the requests.
pub record Scanned : Type 0 where
  pub best_sid : ℕ
  pub reqs : ℕ → VoteReq

unfoldable pub scan_step : Server → Scanned → ℕ → Scanned
scan_step s f n =
    if n == s.idx
    then f
    else if leb (f.reqs n).sid f.best_sid
    then record f { reqs = update f.reqs n (dropped (f.reqs n)) }
    else record f { best_sid = (f.reqs n).sid }

-- The first loop of `poll_vote_requests`, after the servers below `n`.
unfoldable pub scan : ℕ → Server → ℕ → Scanned
scan zero s old_sid = record { best_sid = old_sid; reqs = s.vote_req }
scan (suc n) s old_sid = scan_step s (scan n s old_sid) n

-- The best request so far, the highest term, and the requests.
pub record Choice : Type 0 where
  pub best : VoteReq
  pub highest_term : ℕ
  pub reqs : ℕ → VoteReq

abbrev pub highest_with : ℕ → VoteReq → ℕ
highest_with highest r = if ltb highest (sid_get_term r.sid) then sid_get_term r.sid else highest

-- The local log is better than that of the request.
unfoldable pub is_better : VoteReq → VoteReq → Bool
is_better best r = ltb r.term best.term || (best.term == r.term && ltb r.index best.index)

unfoldable pub consider : Choice → ℕ → Choice
consider c n =
    let r = c.reqs n in
    if ltb r.sid c.best.sid
    then record c { reqs = update c.reqs n (dropped r) }
    else if is_better c.best r
    then record c { highest_term = highest_with c.highest_term r }
    else record {
      best = r;
      highest_term = highest_with c.highest_term r;
      reqs = update c.reqs n (dropped r);
    }

-- The second loop, after the servers below `n`.
unfoldable pub choose : ℕ → Choice → Choice
choose zero c = c
choose (suc n) c = consider (choose n c) n

abbrev pub own_log : Server → ℕ → VoteReq
own_log s old_sid = record {
  sid = old_sid;
  index = if s.idx == fixed_leader then 1 else 0;
  term = 1;
}

-- `best_request` and `highest_term` before the second loop.
abbrev pub own_choice : Server → ℕ → Scanned → Choice
own_choice s old_sid f = record {
  best = own_log s old_sid;
  highest_term = sid_get_term f.best_sid;
  reqs = f.reqs;
}

-- The choice from what the first loop has found.
unfoldable pub first_choice : Server → ℕ → Scanned → Choice
first_choice s old_sid f = choose s.size (own_choice s old_sid f)

-- The end of `poll_vote_requests`: the own term is raised, or a candidate gets the vote. The write
-- of the vote does not fail.
unfoldable pub settle : Server → ℕ → Choice → List Message × Server
settle s old_sid c =
    let s1 : Server = record s { vote_req = c.reqs } in
    if c.best.sid == old_sid
    then ([], server_update_sid s1 (sid_set_idx (sid_set_term s.sid c.highest_term) s.idx) s.sid)
    else (let s2 = server_update_sid s1 c.best.sid s.sid in
        (send_vote_ack s2, record s2 { timer = receiving }))

unfoldable pub poll_vote_requests : Server → List Message × Server
poll_vote_requests s =
    let old_sid = sid_set_l s.sid in
    let f = scan s.size s old_sid in
    if sid_get_l s.sid == 0
    then (if f.best_sid == old_sid
        then ([], record s { vote_req = f.reqs })
        else settle s old_sid (first_choice s old_sid f))
    else ([], s)

-- `IS_CANDIDATE`
unfoldable pub is_candidate : Server → Bool
is_candidate s = sid_get_idx s.sid == s.idx && sid_get_l s.sid == 0

unfoldable pub polling : Server → List Message × Server
polling s = poll_vote_requests (if is_candidate s then poll_vote_count s else s)
