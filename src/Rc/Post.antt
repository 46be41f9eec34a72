-- ===== src/Rc/Post.antt =====
-- `post_send` and `poll_cq` of dare_ibv_rc.c, the writes to one server that consensus.c makes with
-- them, and `find_max_inline` of dare_ibv.c.
use rdma_paxos.Prelude.{
  ℕ, zero, suc, ◌-◌, ◌/◌, ◌==◌, ltb, leb, if◌then◌else◌, Bool, true, false, List, [], ◌∷◌, ◌++◌,
  length, Option, none, some, ℤ, pos, negsuc, bit_and, bit_or,
}
use rdma_paxos.Consensus.Types.{Endpoint, Send, send_to, count_send}
use rdma_paxos.Rc.Verbs.{Opcode, rdma_write, WorkRequest, failed, completed, Verbs, IbDevice}
use rdma_paxos.Rc.Connect.{error_return}

-- The documented values of `ibv_send_flags`.
abbrev pub ibv_send_signaled : ℕ
ibv_send_signaled = 2

abbrev pub ibv_send_inline : ℕ
ibv_send_inline = 8

abbrev pub is_signaled : WorkRequest → Bool
is_signaled wr = if bit_and wr.send_flags ibv_send_signaled == 0 then false else true

-- The end of `poll_cq`: the first status that is not a success, or the number of completions.
unfoldable pub wc_result : ℕ → List ℕ → ℤ
wc_result total [] = pos total
wc_result total (zero ∷ rest) = wc_result total rest
wc_result total (suc status ∷ rest) = negsuc status

-- The loop of `poll_cq` with the statuses so far; none when the fuel is over, where the code goes on.
unfoldable pub poll_loop :
    {D : Type 0} → Verbs D → ℕ → ℕ → (max_wc : ℕ) → List ℕ → D → Option (ℤ × D)
poll_loop v zero i max_wc got d = none
poll_loop v (suc fuel) i max_wc got d =
    let (polled, d') = v.ibv_poll_cq i (max_wc - length got) d in
    elim polled [
      | failed k ↦ some (negsuc k, d')
      | completed statuses ↦
          let rest = poll_loop v fuel i max_wc (got ++ statuses) d' in
          if ltb (length (got ++ statuses)) max_wc
          then rest
          else some (wc_result (length (got ++ statuses)) (got ++ statuses), d')
    ]

unfoldable pub poll_cq : {D : Type 0} → Verbs D → ℕ → ℕ → (max_wc : ℕ) → D → Option (ℤ × D)
poll_cq v fuel i max_wc d = poll_loop v fuel i max_wc [] d

-- `wr.send_flags |= IBV_SEND_INLINE`
abbrev pub is_write : Opcode → Bool
is_write rdma_write = true
is_write _ = false

unfoldable pub with_inline : IbDevice → WorkRequest → WorkRequest
with_inline dev wr =
    if is_write wr.opcode
    then (if leb wr.length dev.rc_max_inline_data
        then record wr { send_flags = bit_or wr.send_flags ibv_send_inline }
        else wr)
    else wr

-- `post_send`, with `buf`, `len`, `mr`, `opcode`, `rm` and `send_flags` as a work request.
unfoldable pub post_send :
    {D : Type 0}
    → Verbs D
    → IbDevice
    → (fuel server_id : ℕ) → WorkRequest
    → (poll_completion : Bool) → D
    → Option (ℕ × D)
post_send v dev fuel server_id wr poll_completion d =
    elim (if poll_completion then poll_cq v fuel server_id 1 d else some (pos 0, d)) [
      | none ↦ none
      | some (ret, d') ↦
          let (rc, d'') = v.ibv_post_send server_id (with_inline dev wr) d' in
          some (error_return rc, d'')
    ]

-- A write of consensus.c to one server: `len` bytes at `addr` to `offset` in the remote log.
pub record Write : Type 0 where
  pub addr : ℕ
  pub len : ℕ
  pub offset : ℕ

abbrev pub request_of : IbDevice → ℕ → Send → WorkRequest
request_of dev addr s = record {
  addr = addr;
  length = s.len;
  lkey = dev.lcl_lkey;
  opcode = rdma_write;
  send_flags = if s.signaled then ibv_send_signaled else 0;
  remote_addr = s.raddr;
  rkey = s.rkey;
}

-- The flags that the send counter asks for, the counter, and the write: for each write in turn, with
-- the results of `post_send`, which the code does not look at.
unfoldable pub post_all :
    {D : Type 0}
    → Verbs D
    → IbDevice
    → (fuel server_id : ℕ) → List Write
    → Endpoint
    → D
    → Option (List ℕ × Endpoint × D)
post_all v dev fuel server_id [] ep d = some ([], ep, d)
post_all v dev fuel server_id (w ∷ ws) ep d =
    let s = send_to server_id w.len w.offset ep in
    elim (post_send v dev fuel server_id (request_of dev w.addr s) s.poll_completion d) [
      | none ↦ none
      | some (rc, d') ↦ elim (post_all v dev fuel server_id ws (count_send ep) d') [
        | none ↦ none
        | some (rcs, ep', d'') ↦ some (rc ∷ rcs, ep', d'')
      ]
    ]

-- The body of the loops of `rc_send_hb` and `rc_send_vote_request`, and the end of
-- `rc_send_vote_ack`: the write is posted with the flags 1 and without polling, and then polled for.
unfoldable pub write_and_poll :
    {D : Type 0} → Verbs D → IbDevice → (fuel server_id : ℕ) → WorkRequest → D → Option (ℕ × D)
write_and_poll v dev fuel server_id wr d =
    elim (post_send v dev fuel server_id (record wr { send_flags = 1 }) false d) [
      | none ↦ none
      | some (rc, d') ↦
          let polled = poll_cq v fuel server_id 1 d' in
          if rc == 0
          then elim polled [ none ↦ none | some (ret, d'') ↦ some (0, d'') ]
          else some (1, d')
    ]

-- The loop of `find_max_inline` on fuel: the result and `*max_inline_arg`. `accepts` says whether
-- `ibv_create_qp` makes a queue pair with that `max_inline_data`.
unfoldable pub inline_loop : ℕ → (accepts : ℕ → Bool) → (max_inline_data : ℕ) → Option (ℕ × ℕ)
inline_loop zero accepts max_inline_data = none
inline_loop (suc fuel) accepts max_inline_data =
    let rest = inline_loop fuel accepts (max_inline_data / 2) in
    if max_inline_data == 0
    then some (1, 0)
    else if accepts max_inline_data
    then some (0, max_inline_data)
    else rest

-- `find_max_inline`, where `has_cq` says whether the completion queue can be made.
unfoldable pub find_max_inline : (has_cq : Bool) (accepts : ℕ → Bool) → Option (ℕ × ℕ)
find_max_inline has_cq accepts =
    let found = inline_loop 22 accepts 1048576 in if has_cq then found else some (1, 0)
