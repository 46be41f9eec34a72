-- ===== src/Rc/Machine.antt =====
-- `rc_connect_server` on a queue pair that moves as the manual says.
use native.Mathlib.Omega.{arith}
use rdma_paxos.Prelude.{ℕ, ◌≡◌, ◌∙◌, inl, inr, refl, sym, subst, ◌==◌, false, Bool-cases, List}
use rdma_paxos.Consensus.Types.{Endpoint}
use rdma_paxos.Rc.Verbs.{
  QpState, reset, init, rtr, rts, QpAttr, to_init, to_rtr, to_rts, asked, Verbs, IbDevice, ◌⟶◌,
  first, receive, send, IsQpMachine, IsWilling,
}
use rdma_paxos.Rc.Connect.{
  rc_qp_reset_to_init, rc_qp_init_to_rtr, rc_qp_rtr_to_rts, rc_connect_server, rtr_attr, rts_attr,
}

rts-init : ¬ (rts ⟶ init)
rts-init t = elim t [ ]

rtr-init : ¬ (rtr ⟶ init)
rtr-init t = elim t [ ]

-- Whatever the moves return, the endpoint only has its send counter reset.
pub rc_connect_server-endpoint :
    {D : Type 0} (v : Verbs D) (dev : IbDevice) (i : ℕ) (ep : Endpoint) (dlid : ℕ) (dgid : List ℕ)
    (d : D)
    → (rc_connect_server v dev i ep dlid dgid d).1 ≡ record ep { send_count = 0 }
unfolding rc_connect_server rc_qp_reset_to_init rc_qp_init_to_rtr rc_qp_rtr_to_rts
rc_connect_server-endpoint v dev i ep dlid dgid d = ground arith

module _ {D : Type 0} (v : Verbs D) (state : ℕ → D → QpState) (m : IsQpMachine v state) where
  -- A move that is not allowed is refused.
  refused :
      (i : ℕ) (a : QpAttr) (d : D)
      → ¬ (state i d ⟶ asked a)
      → ((v.ibv_modify_qp i a d).0 == 0) ≡ false
  refused i a d ban = elim (Bool-cases ((v.ibv_modify_qp i a d).0 == 0)) [
    | inl ok ↦ absurd (ban (m.moved i a d (ground (arith, ok))).0)
    | inr bad ↦ bad
  ]

  -- On a queue pair that is ready to send already, `rc_connect_server` fails with 1 and the queue pair
  -- is ready to send after it.
  pub rc_connect_server-again :
      (dev : IbDevice) (i : ℕ) (ep : Endpoint) (dlid : ℕ) (dgid : List ℕ) (d : D)
      → state i d ≡ rts
      → ((rc_connect_server v dev i ep dlid dgid d).0 ≡ 1)
        × (state i (rc_connect_server v dev i ep dlid dgid d).2 ≡ rts)
  unfolding rc_connect_server rc_qp_reset_to_init
  rc_connect_server-again dev i ep dlid dgid d e =
      let bad = refused i (to_init 0 dev.port_num) d (λ t. rts-init (subst (λ s. s ⟶ init) e t)) in
      rw (bad, rc_connect_server, rc_qp_reset_to_init)
        (refl, m.kept i (to_init 0 dev.port_num) d (ground (arith, bad)) ∙ e)

  -- A connection that `rc_connect_server` reports as made is ready to send.
  pub rc_connect_server-rts :
      (dev : IbDevice) (i : ℕ) (ep : Endpoint) (dlid : ℕ) (dgid : List ℕ) (d : D)
      → (rc_connect_server v dev i ep dlid dgid d).0 ≡ 0
      → state i (rc_connect_server v dev i ep dlid dgid d).2 ≡ rts
  unfolding rc_connect_server rc_qp_reset_to_init rc_qp_init_to_rtr rc_qp_rtr_to_rts
  rc_connect_server-rts dev i ep dlid dgid d =
      let a = to_init 0 dev.port_num in
      let b = to_rtr (rtr_attr dev (record ep { send_count = 0 }) dlid dgid) in
      let c = to_rts (rts_attr dev) in
      let d1 = (v.ibv_modify_qp i a d).1 in
      let d2 = (v.ibv_modify_qp i b d1).1 in
      elim (Bool-cases ((v.ibv_modify_qp i a d).0 == 0)) [
        | inl ok ↦ elim (Bool-cases ((v.ibv_modify_qp i b d1).0 == 0)) [
          | inl ok' ↦ elim (Bool-cases ((v.ibv_modify_qp i c d2).0 == 0)) [
            | inl ok'' ↦
                rw
                  (
                    ok, ok', ok'', rc_connect_server, rc_qp_reset_to_init, rc_qp_init_to_rtr,
                    rc_qp_rtr_to_rts,
                  )
                  (λ e. (m.moved i c d2 (ground (arith, ok''))).1)
            | inr bad ↦
                rw
                  (
                    ok, ok', bad, rc_connect_server, rc_qp_reset_to_init, rc_qp_init_to_rtr,
                    rc_qp_rtr_to_rts,
                  )
                  (λ e. absurd (omega (arith, e)))
          ]
          | inr bad ↦
              rw (ok, bad, rc_connect_server, rc_qp_reset_to_init, rc_qp_init_to_rtr)
                (λ e. absurd (omega (arith, e)))
        ]
        | inr bad ↦
            rw (bad, rc_connect_server, rc_qp_reset_to_init) (λ e. absurd (omega (arith, e)))
      ]

  -- On a device that does every allowed move, a queue pair in RESET becomes ready to send, and the
  -- send counter of the endpoint starts at 0.
  pub rc_connect_server_lem :
      (dev : IbDevice) (i : ℕ) (ep : Endpoint) (dlid : ℕ) (dgid : List ℕ) (d : D)
      → IsWilling v state
      → state i d ≡ reset
      → ((rc_connect_server v dev i ep dlid dgid d).0 ≡ 0)
        × (state i (rc_connect_server v dev i ep dlid dgid d).2 ≡ rts)
        × ((rc_connect_server v dev i ep dlid dgid d).1 ≡ record ep { send_count = 0 })
  unfolding rc_connect_server rc_qp_reset_to_init rc_qp_init_to_rtr rc_qp_rtr_to_rts
  rc_connect_server_lem dev i ep dlid dgid d w e =
      let a = to_init 0 dev.port_num in
      let b = to_rtr (rtr_attr dev (record ep { send_count = 0 }) dlid dgid) in
      let c = to_rts (rts_attr dev) in
      let d1 = (v.ibv_modify_qp i a d).1 in
      let d2 = (v.ibv_modify_qp i b d1).1 in
      let ok = w i a d (subst (λ s. s ⟶ init) (sym e) first) in
      let ok' = w i b d1 (subst (λ s. s ⟶ rtr) (sym (m.moved i a d ok).1) receive) in
      let ok'' = w i c d2 (subst (λ s. s ⟶ rts) (sym (m.moved i b d1 ok').1) send) in
      rw
        (ok, ok', ok'', rc_connect_server, rc_qp_reset_to_init, rc_qp_init_to_rtr, rc_qp_rtr_to_rts)
        (refl, (m.moved i c d2 ok'').1, refl)
