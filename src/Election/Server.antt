-- ===== src/Election/Server.antt =====
-- The state of dare_server.c and the handlers outside the polling: the heartbeat timers, the start
-- of an election, and the update of the identifier.
use rdma_paxos.Prelude.{
  ℕ, zero, suc, ◌+◌, ◌==◌, if◌then◌else◌, Bool, true, false, ◌||◌, List, [], ◌∷◌, ◌++◌, update, ltb,
}
use rdma_paxos.Election.Sid.{
  sid_get_idx, sid_set_idx, sid_set_l, sid_unset_l, sid_get_term, sid_set_term,
}

abbrev pub init_leader : ℕ
init_leader = 0

abbrev pub fixed_leader : ℕ
fixed_leader = 1

pub record VoteReq : Type 0 where
  pub sid : ℕ
  pub index : ℕ
  pub term : ℕ

-- The callback of the heartbeat timer, or none while it is stopped.
pub data Timer : Type 0 where
  receiving sending stopped : Timer

-- An RDMA write to the control data of another server, in the place of this one.
pub data Message : Type 0 where
  heartbeat vote_ack : ℕ → ℕ → Message
  vote_request : ℕ → VoteReq → Message

pub record Server : Type 0 where
  pub idx : ℕ
  pub size : ℕ
  pub len : ℕ
  pub end : ℕ
  pub sid : ℕ
  pub vote_req : ℕ → VoteReq
  pub hb : ℕ → ℕ
  pub votes : ℕ → ℕ
  pub timer : Timer
  pub poll_on : Bool

-- `server_update_sid`: the result is 0 in any case.
unfoldable pub server_update_sid : Server → (new_sid old_sid : ℕ) → Server
server_update_sid s new_sid old_sid = if s.sid == old_sid then record s { sid = new_sid } else s

-- The start of `hb_begin`.
unfoldable pub hb_begin : Server → Server
hb_begin s =
    let s' = server_update_sid s (sid_set_idx (sid_set_l (sid_set_term 0 1)) init_leader) s.sid in
    record s' { timer = if s.idx == init_leader then sending else receiving }

-- The loops over the other servers below `n`: to each of them a message.
unfoldable pub to_others : (ℕ → Message) → (ℕ → Bool) → ℕ → List Message
to_others message skip zero = []
to_others message skip (suc n) =
    let before = to_others message skip n in if skip n then before else before ++ message n ∷ []

-- `rc_send_hb`
unfoldable pub send_hb : Server → List Message
send_hb s = to_others (λ i. heartbeat i s.sid) (λ i. i == s.idx) s.size

abbrev pub own_request : Server → VoteReq
own_request s = record { sid = s.sid; index = if s.idx == fixed_leader then 1 else 0; term = 1 }

-- `rc_send_vote_request`
unfoldable pub send_vote_request : Server → List Message × Server
send_vote_request s = (
  to_others (λ i. vote_request i (own_request s)) (λ i. s.idx == i || i == init_leader) s.size,
  record s { vote_req = update s.vote_req s.idx (own_request s) },
)

-- `rc_send_vote_ack`: the message is for the candidate that the identifier names.
unfoldable pub send_vote_ack : Server → List Message
send_vote_ack s = vote_ack (sid_get_idx s.sid) s.end ∷ []

-- The identifier of the next term, without a leader, for this server.
unfoldable pub next_sid : Server → ℕ
next_sid s = sid_set_idx (sid_unset_l (sid_set_term 0 (sid_get_term s.sid + 1))) s.idx

unfoldable pub start_election : Server → List Message × Server
start_election s =
    let s' = server_update_sid s (next_sid s) s.sid in
    send_vote_request
      (record s' { votes = λ i. if ltb i s.size then s.len else s.votes i; timer = receiving })

-- The loop of `hb_receive_cb` over the servers below `n`: the heartbeats are reset, and the result
-- says whether none has come.
unfoldable pub no_heartbeat : ℕ → Server → Bool
no_heartbeat zero s = true
no_heartbeat (suc n) s =
    let before = no_heartbeat n s in
    if n == s.idx then before else if s.hb n == 0 then before else false

unfoldable pub hb_receive_cb : Server → List Message × Server
hb_receive_cb s =
    let s' : Server = record s {
      hb = λ i. if ltb i s.size then (if i == s.idx then s.hb i else 0) else s.hb i;
    } in
    if s.idx == init_leader
    then ([], s)
    else if no_heartbeat s.size s
    then (let (sent, s'') = start_election (record s' { timer = stopped }) in
        (sent, record s'' { poll_on = true }))
    else ([], record s' { timer = receiving })
