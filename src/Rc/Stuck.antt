-- ===== src/Rc/Stuck.antt =====
-- The writes of the election, which dare_ibv_rc.c polls for.
use native.Mathlib.Omega.{arith}
use rdma_paxos.Prelude.{ℕ, ◌≡◌, ◌<◌, ◌∙◌, refl, ap, false, none}
use rdma_paxos.Rc.Verbs.{WorkRequest, Verbs, IbDevice}
use rdma_paxos.Rc.Post.{is_signaled, with_inline, post_send, write_and_poll}
use rdma_paxos.Rc.Waiting.{Window, posted, IsSendQueue, poll_cq-stuck}

not_signaled :
    (dev : IbDevice) (wr : WorkRequest)
    → is_signaled (with_inline dev (record wr { send_flags = 1 })) ≡ false
unfolding with_inline
not_signaled dev wr = ground arith

-- A heartbeat, a vote request or a vote that is written while no signaled write is on its way, to a
-- queue that is not full, is taken, but the function that writes it does not return: its flags ask
-- for no completion, and the loop of `poll_cq` waits for one, with any fuel.
pub write_and_poll-stuck :
    {D : Type 0} (v : Verbs D) (dev : IbDevice) (i depth : ℕ) (view : D → Window) (delay : D → ℕ)
    (fuel : ℕ) (wr : WorkRequest) (d : D)
    → IsSendQueue v i depth view delay
    → (view d).unpolled ≡ 0
    → (view d).unretired < depth
    → write_and_poll v dev fuel i wr d ≡ none
unfolding write_and_poll post_send
write_and_poll-stuck v dev i depth view delay fuel wr d q u lt =
    let wr' = with_inline dev (record wr { send_flags = 1 }) in
    let t = q.takes wr' d lt in
    let e = t.1 ∙ ap (λ b. posted b (view d)) (not_signaled dev wr) in
    let stuck = poll_cq-stuck v i depth view delay q fuel (v.ibv_post_send i wr' d).1 (rw e u) in
    rw (t.0, stuck, write_and_poll, post_send) refl
