-- ===== src/Rc/Samples.antt =====
-- Concrete devices for the tests: queue pairs that do every allowed move, and a send queue whose
-- completions come at once.
use native.Mathlib.Omega.{arith}
use rdma_paxos.Prelude.{
  ℕ, ◌≡◌, refl, inl, inr, ◌==◌, ==_refl, ltb, lt→ltb, if◌then◌else◌, Bool, true, false, Bool-cases,
  [], ◌∷◌, update, pos,
}
use rdma_paxos.Consensus.Types.{Endpoint}
use rdma_paxos.Rc.Verbs.{
  QpState, reset, init, rtr, rts, QpAttr, asked, WorkRequest, Polled, completed, Verbs, IbDevice,
  ◌⟶◌, clear, first, again, receive, send, adjust, IsQpMachine, IsWilling,
}
use rdma_paxos.Rc.Post.{is_signaled}
use rdma_paxos.Rc.Waiting.{Window, posted, polled, IsSendQueue}

abbrev pub allowed : QpState → QpState → Bool
allowed _ reset = true
allowed reset init = true
allowed init init = true
allowed init rtr = true
allowed rtr rts = true
allowed rts rts = true
allowed _ _ = false

pub allowed-⟶ : (s t : QpState) → allowed s t ≡ true → s ⟶ t
allowed-⟶ s t e = grind (arith, clear, first, again, receive, send, adjust)

pub ⟶-allowed : {s t : QpState} → s ⟶ t → allowed s t ≡ true
⟶-allowed (clear {s}) = ground arith
⟶-allowed first = refl
⟶-allowed again = refl
⟶-allowed receive = refl
⟶-allowed send = refl
⟶-allowed adjust = refl

abbrev pub qp_state : ℕ → (ℕ → QpState) → QpState
qp_state i d = d i

abbrev modify : ℕ → QpAttr → (ℕ → QpState) → ℕ × (ℕ → QpState)
modify i a d = if allowed (d i) (asked a) then (0, update d i (asked a)) else (1, d)

abbrev pub obedient : Verbs (ℕ → QpState)
obedient = record {
  ibv_modify_qp = modify;
  ibv_post_send = λ i wr d. (0, d);
  ibv_poll_cq = λ i num d. (completed [], d);
}

pub obedient-IsQpMachine : IsQpMachine obedient qp_state
obedient-IsQpMachine = record {
  moved = λ i a d e. elim (Bool-cases (allowed (d i) (asked a))) [
    | inl ok ↦ (allowed-⟶ (d i) (asked a) ok, ground (arith, ok, ==_refl i))
    | inr bad ↦ absurd (ground (arith, bad, e))
  ];
  kept = λ i a d e. ground (arith, e);
}

pub obedient-IsWilling : IsWilling obedient qp_state
obedient-IsWilling i a d t = ground (arith, ⟶-allowed t)

abbrev take_write : ℕ → WorkRequest → Window → ℕ × Window
take_write i wr w = if ltb w.unretired 8192 then (0, posted (is_signaled wr) w) else (1, w)

abbrev poll_one : ℕ → ℕ → Window → Polled × Window
poll_one i num w = if w.unpolled == 0 then (completed [], w) else (completed (0 ∷ []), polled w)

abbrev pub prompt : Verbs Window
prompt = record {
  ibv_modify_qp = λ i a w. (0, w);
  ibv_post_send = take_write;
  ibv_poll_cq = poll_one;
}

pub prompt-IsSendQueue : IsSendQueue prompt 1 8192 (λ w. w) (λ w. 0)
prompt-IsSendQueue = record {
  takes = λ wr w lt. ground (arith, lt→ltb w.unretired 8192 lt);
  comes = λ w u e. ground (arith, u);
  waits = λ w u lt. absurd (omega arith);
  quiet = λ w e. ground (arith, e);
}

abbrev pub device : IbDevice
device = record {
  port_num = 1;
  mtu = 5;
  lid = 7;
  gid_idx = pos 0;
  max_qp_rd_atom = 16;
  rc_max_inline_data = 64;
  lcl_raddr = 4096;
  lcl_rkey = 99;
  lcl_lkey = 98;
}

abbrev pub unconnected : Endpoint
unconnected = record { rc_connected = 0; qpn = 0; send_count = 0; raddr = 0; rkey = 0 }
