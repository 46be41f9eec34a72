-- ===== src/Rc/Waiting.antt =====
-- The writes to a server that are not known to be done, and the completions that are not polled: what
-- the manual says of a completion queue, and that the send counters keep both in bounds.
use native.Mathlib.Omega.{arith}
use rdma_paxos.Prelude.{
  ℕ, zero, suc, ◌+◌, ◌-◌, ◌%◌, ◌≤◌, ◌<◌, ◌≡◌, ◌∙◌, refl, ap, inl, inr, ◌==◌, if◌then◌else◌, Bool,
  true, false, Bool-cases, u32, [], ◌∷◌, none, some, pos,
}
use rdma_paxos.Consensus.Types.{Send}
use rdma_paxos.Rc.Verbs.{WorkRequest, completed, Verbs, IbDevice}
use rdma_paxos.Rc.Post.{is_signaled, poll_loop, poll_cq, with_inline, request_of, wc_result}

-- `unpolled` completions of signaled writes are still to be polled; `unretired` writes are not known
-- to be done, `since` of them posted after the last signaled one.
pub record Window : Type 0 where
  pub unpolled : ℕ
  pub unretired : ℕ
  pub since : ℕ

abbrev pub posted : Bool → Window → Window
posted true w = record { unpolled = w.unpolled + 1; unretired = w.unretired + 1; since = 0 }
posted false w = record { unpolled = w.unpolled; unretired = w.unretired + 1; since = w.since + 1 }

-- The completion of a signaled write says that the writes before it are done.
abbrev pub polled : Window → Window
polled w = record {
  unpolled = w.unpolled - 1;
  unretired = if w.unpolled == 1 then w.since else w.unretired;
  since = w.since;
}

-- The documented behaviour of the send queue and the completion queue to server `i`, of a connection
-- without errors: a queue of `depth` requests takes a write while it is not full, and the completion
-- of a signaled write comes within `delay` polls. There is no other completion.
pub record IsSendQueue {D : Type 0} (v : Verbs D) (i depth : ℕ) (view : D → Window) (delay : D → ℕ)
    : Type 0 where
  pub takes :
      (wr : WorkRequest) (d : D)
      → (view d).unretired < depth
      → ((v.ibv_post_send i wr d).0 ≡ 0)
        × (view (v.ibv_post_send i wr d).1 ≡ posted (is_signaled wr) (view d))
  pub comes :
      (d : D)
      → 0 < (view d).unpolled
      → delay d ≡ 0
      → ((v.ibv_poll_cq i 1 d).0 ≡ completed (0 ∷ []))
        × (view (v.ibv_poll_cq i 1 d).1 ≡ polled (view d))
  pub waits :
      (d : D)
      → 0 < (view d).unpolled
      → 0 < delay d
      → ((v.ibv_poll_cq i 1 d).0 ≡ completed [])
        × (view (v.ibv_poll_cq i 1 d).1 ≡ view d)
        × (delay (v.ibv_poll_cq i 1 d).1 < delay d)
  pub quiet :
      (d : D)
      → (view d).unpolled ≡ 0
      → ((v.ibv_poll_cq i 1 d).0 ≡ completed []) × (view (v.ibv_poll_cq i 1 d).1 ≡ view d)

module _ {D : Type 0} (v : Verbs D) (i depth : ℕ) (view : D → Window) (delay : D → ℕ)
    (q : IsSendQueue v i depth view delay) where
  -- Once a signaled write is posted, `poll_cq` returns with its completion.
  pub poll_cq_lem :
      (fuel : ℕ) (d : D)
      → 0 < (view d).unpolled
      → delay d < fuel
      → (d' : D) × (poll_cq v fuel i 1 d ≡ some (pos 1, d')) × (view d' ≡ polled (view d))
  unfolding poll_cq poll_loop wc_result
  poll_cq_lem zero d u lt = absurd (omega arith)
  poll_cq_lem (suc fuel) d u lt = elim (Bool-cases (delay d == 0)) [
    | inl now ↦
        let c = q.comes d u (ground (arith, now)) in
        ((v.ibv_poll_cq i 1 d).1, rw (c.0, poll_cq, poll_loop) refl, c.1)
    | inr later ↦
        let w = q.waits d u (ground (arith, later)) in
        let (d', r, e) = poll_cq_lem fuel (v.ibv_poll_cq i 1 d).1 (rw w.1 u) (omega (arith, w.2)) in
        (d', rw (w.0, poll_cq, poll_loop) r, e ∙ ap polled w.1)
  ]

  -- Without a signaled write to wait for, `poll_cq` never returns.
  pub poll_cq-stuck : (fuel : ℕ) (d : D) → (view d).unpolled ≡ 0 → poll_cq v fuel i 1 d ≡ none
  unfolding poll_cq poll_loop
  poll_cq-stuck zero d u = refl
  poll_cq-stuck (suc fuel) d u =
      let c = q.quiet d u in
      rw (c.0, poll_cq, poll_loop) (poll_cq-stuck fuel (v.ibv_poll_cq i 1 d).1 (rw c.1 u))

-- What holds between two writes, by the send counter.
pub record IsBounded (count : ℕ) (w : Window) : Type 0 where
  pub fresh : count % 4096 ≡ 0 → (w.unpolled ≡ 0) × (w.unretired ≤ 4095)
  pub within :
      0 < count % 4096
      → (w.unpolled ≡ 1) × (w.since + 1 ≡ count % 4096) × (w.unretired ≤ 4095 + count % 4096)

-- The window before the write, after the poll that the counter may ask for.
abbrev pub polled_at : ℕ → Window → Window
polled_at count w = if count % 4096 == 4095 then polled w else w

pub polled_at-le :
    (count : ℕ) (w : Window) → IsBounded count w → (polled_at count w).unretired < 8190
polled_at-le count w b = ground (arith, b.fresh, b.within)

pub IsBounded-step :
    (count : ℕ) (w : Window)
    → IsBounded count w
    → IsBounded (u32 (count + 1)) (posted (count % 4096 == 0) (polled_at count w))
IsBounded-step count w b = record {
  fresh = λ e. ground (arith, b.fresh, b.within);
  within = λ lt. ground (arith, b.fresh, b.within);
}

pub is_signaled-request :
    (dev : IbDevice) (addr : ℕ) (s : Send)
    → is_signaled (with_inline dev (request_of dev addr s)) ≡ s.signaled
unfolding with_inline
is_signaled-request dev addr s = ground arith
