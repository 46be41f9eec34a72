-- ===== src/Rc/Verbs.antt =====
-- The calls of the verbs library that dare_ibv_rc.c makes, as a parameter with a state of type `D`,
-- and what the manual says of the states of a queue pair. A queue pair and its completion queue are
-- named by the index of the server at the other end.
use rdma_paxos.Prelude.{ℕ, ◌≡◌, ◌≢◌, ℤ, Option, List}

pub data QpState : Type 0 where
  reset init rtr rts : QpState

-- The attributes of `ibv_modify_qp` for the state RTR.
pub record RtrAttr : Type 0 where
  pub path_mtu : ℕ
  pub max_dest_rd_atomic : ℕ
  pub min_rnr_timer : ℕ
  pub dest_qp_num : ℕ
  pub rq_psn : ℕ
  pub is_global : ℕ
  pub dlid : ℕ
  pub port_num : ℕ
  pub dgid : Option (List ℕ)
  pub hop_limit : ℕ
  pub sgid_index : ℕ

-- The attributes for the state RTS.
pub record RtsAttr : Type 0 where
  pub timeout : ℕ
  pub retry_cnt : ℕ
  pub rnr_retry : ℕ
  pub sq_psn : ℕ
  pub max_rd_atomic : ℕ

-- `ibv_qp_attr` by the state that it asks for.
pub data QpAttr : Type 0 where
  to_reset : QpAttr
  to_init : (pkey_index port_num : ℕ) → QpAttr
  to_rtr : RtrAttr → QpAttr
  to_rts : RtsAttr → QpAttr

abbrev pub asked : QpAttr → QpState
asked to_reset = reset
asked (to_init _ _) = init
asked (to_rtr _) = rtr
asked (to_rts _) = rts

-- `ibv_wr_opcode`, as far as the opcode matters to `post_send`.
pub data Opcode : Type 0 where
  rdma_write rdma_read other : Opcode

-- `ibv_send_wr` with its one element.
pub record WorkRequest : Type 0 where
  pub addr : ℕ
  pub length : ℕ
  pub lkey : ℕ
  pub opcode : Opcode
  pub send_flags : ℕ
  pub remote_addr : ℕ
  pub rkey : ℕ

-- The result of `ibv_poll_cq`: negative, or the statuses of the completions, 0 for a success.
pub data Polled : Type 0 where
  failed : (minus_ret : ℕ) → Polled
  completed : (statuses : List ℕ) → Polled

pub record Verbs (D : Type 0) : Type 0 where
  pub ibv_modify_qp : ℕ → QpAttr → D → ℕ × D
  pub ibv_post_send : ℕ → WorkRequest → D → ℕ × D
  pub ibv_poll_cq : ℕ → (num_entries : ℕ) → D → Polled × D

-- What dare_ibv_rc.c uses of `dare_ib_device_t`; `lcl_mr` is the registered log.
pub record IbDevice : Type 0 where
  pub port_num : ℕ
  pub mtu : ℕ
  pub lid : ℕ
  pub gid_idx : ℤ
  pub max_qp_rd_atom : ℕ
  pub rc_max_inline_data : ℕ
  pub lcl_raddr : ℕ
  pub lcl_rkey : ℕ
  pub lcl_lkey : ℕ

infix 40 ◌⟶◌
-- The moves of a queue pair that `ibv_modify_qp` may make.
pub data ◌⟶◌ : QpState → QpState → Type 0 where
  clear : {s : QpState} → s ⟶ reset
  first : reset ⟶ init
  again : init ⟶ init
  receive : init ⟶ rtr
  send : rtr ⟶ rts
  adjust : rts ⟶ rts

-- The documented effect of `ibv_modify_qp` on the states of the queue pairs.
pub record IsQpMachine {D : Type 0} (v : Verbs D) (state : ℕ → D → QpState) : Type 0 where
  pub moved :
      (i : ℕ) (a : QpAttr) (d : D)
      → (v.ibv_modify_qp i a d).0 ≡ 0
      → (state i d ⟶ asked a) × (state i (v.ibv_modify_qp i a d).1 ≡ asked a)
  pub kept :
      (i : ℕ) (a : QpAttr) (d : D)
      → (v.ibv_modify_qp i a d).0 ≢ 0
      → state i (v.ibv_modify_qp i a d).1 ≡ state i d

-- A device on which every allowed move succeeds.
abbrev pub IsWilling : {D : Type 0} → Verbs D → (ℕ → D → QpState) → Type 0
IsWilling {D} v state =
    (i : ℕ) (a : QpAttr) (d : D) → state i d ⟶ asked a → (v.ibv_modify_qp i a d).0 ≡ 0
