-- ===== src/Rc/Bounds.antt =====
-- Every write that consensus.c posts to a server is taken, and the queues do not overflow.
use native.Mathlib.Omega.{arith}
use rdma_paxos.Prelude.{
  ℕ, ◌%◌, ◌≤◌, ◌<◌, ◌≡◌, ◌∙◌, refl, ap, inl, inr, ◌==◌, Bool-cases, if◌then◌else◌, ℤ, List, [], ◌∷◌,
  map, some, pos,
}
use rdma_paxos.Consensus.Types.{Endpoint, send_to, count_send}
use rdma_paxos.Rc.Verbs.{Verbs, IbDevice}
use rdma_paxos.Rc.Post.{poll_cq, with_inline, post_send, Write, request_of, post_all}
use rdma_paxos.Rc.Waiting.{
  Window, posted, IsSendQueue, poll_cq_lem, IsBounded, polled_at, polled_at-le, IsBounded-step,
  is_signaled-request,
}

module _ {D : Type 0} (v : Verbs D) (dev : IbDevice) (i depth fuel : ℕ) (view : D → Window)
    (delay : D → ℕ) (q : IsSendQueue v i depth view delay) (room : 8190 ≤ depth)
    (quick : (d : D) → delay d < fuel) where
  take_lem :
      (w : Write) (ep : Endpoint) (d : D)
      → let s = send_to i w.len w.offset ep in
        (view d).unretired < depth
        → ((v.ibv_post_send i (with_inline dev (request_of dev w.addr s)) d).0 ≡ 0)
          × (view (v.ibv_post_send i (with_inline dev (request_of dev w.addr s)) d).1
              ≡ posted s.signaled (view d))
  take_lem w ep d lt =
      let s = send_to i w.len w.offset ep in
      let t = q.takes (with_inline dev (request_of dev w.addr s)) d lt in
      (t.0, t.1 ∙ ap (λ b. posted b (view d)) (is_signaled-request dev w.addr s))

  -- The poll that the counter may ask for returns.
  polled_lem :
      (count : ℕ) (d : D)
      → IsBounded count (view d)
      → (ret : ℤ) × (d' : D) × ((if count % 4096 == 4095
            then poll_cq v fuel i 1 d
            else some (pos 0, d))
          ≡ some (ret, d'))
        × (view d' ≡ polled_at count (view d))
  polled_lem count d b = elim (Bool-cases (count % 4096 == 4095)) [
    | inl full ↦
        let (d', r, e) =
          poll_cq_lem v i depth view delay q fuel d (ground (arith, full, b.within)) (quick d) in
        rw full (pos 1, d', r, e)
    | inr other ↦ rw other (pos 0, d, refl, refl)
  ]

  -- A write is taken.
  post_send_lem :
      (w : Write) (ep : Endpoint) (d : D)
      → IsBounded ep.send_count (view d)
      → let s = send_to i w.len w.offset ep in
        (d' : D) × (post_send v dev fuel i (request_of dev w.addr s) s.poll_completion d
          ≡ some (0, d'))
        × (view d' ≡ posted (ep.send_count % 4096 == 0) (polled_at ep.send_count (view d)))
  unfolding post_send send_to
  post_send_lem w ep d b =
      let (ret, d', r, e) = polled_lem ep.send_count d b in
      let lt = polled_at-le ep.send_count (view d) b in
      let t = take_lem w ep d' (rw e (omega (arith, lt, room))) in
      (
        (v.ibv_post_send i (with_inline dev (request_of dev w.addr (send_to i w.len w.offset ep)))
            d').1,
        rw (r, t.0, post_send, send_to) refl,
        t.1 ∙ ap (posted (ep.send_count % 4096 == 0)) e,
      )

  -- All the writes to a server are taken, from a counter and queues that agree: the polls that the
  -- counter asks for return, never more than one completion is to be polled, and at most 8190 writes
  -- are not known to be done, fewer than the Q_DEPTH of 8192. The send queue takes 8190 requests or
  -- more, and every completion comes within the fuel.
  pub post_all_lem :
      (ws : List Write) (ep : Endpoint) (d : D)
      → IsBounded ep.send_count (view d)
      → (ep' : Endpoint) × (d' : D) × (post_all v dev fuel i ws ep d
          ≡ some (map (λ w. 0) ws, ep', d'))
        × ((view d').unpolled ≤ 1)
        × ((view d').unretired ≤ 8190)
  unfolding post_all count_send
  post_all_lem [] ep d b =
      (ep, d, refl, ground (arith, b.fresh, b.within), ground (arith, b.fresh, b.within))
  post_all_lem (w ∷ ws) ep d b =
      let (d1, r, e) = post_send_lem w ep d b in
      let (ep', d', r', u, l) =
        post_all_lem ws (count_send ep) d1 (rw e (IsBounded-step ep.send_count (view d) b)) in
      (ep', d', rw (r, r', post_all) refl, u, l)
