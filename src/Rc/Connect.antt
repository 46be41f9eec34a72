-- ===== src/Rc/Connect.antt =====
-- `rc_connect_server` and the three moves of a queue pair that it makes.

use rdma_paxos.Prelude.{ℕ, ℤ, pos, negsuc, ◌==◌, if◌then◌else◌, none, some, List}
use rdma_paxos.Consensus.Types.{Endpoint}
use rdma_paxos.Rc.Verbs.{RtrAttr, RtsAttr, to_reset, to_init, to_rtr, to_rts, Verbs, IbDevice}

-- The error branches: `error_return(1, ...)` unless the result is 0.
abbrev pub error_return : ℕ → ℕ
error_return rc = if rc == 0 then 0 else 1

-- `rc_qp_reset`, which nothing calls.
unfoldable pub rc_qp_reset : {D : Type 0} → Verbs D → ℕ → D → ℕ × D
rc_qp_reset v i d = let (rc, d') = v.ibv_modify_qp i to_reset d in (error_return rc, d')

unfoldable pub rc_qp_reset_to_init :
    {D : Type 0} → Verbs D → IbDevice → ℕ → Endpoint → D → ℕ × Endpoint × D
rc_qp_reset_to_init v dev i ep d =
    let (rc, d') = v.ibv_modify_qp i (to_init 0 dev.port_num) d in
    (error_return rc, record ep { send_count = 0 }, d')

abbrev pub rtr_attr : IbDevice → Endpoint → ℕ → List ℕ → RtrAttr
rtr_attr dev ep dlid dgid = global dev.gid_idx
  where
    base : RtrAttr
    base = record {
      path_mtu = dev.mtu;
      max_dest_rd_atomic = dev.max_qp_rd_atom;
      min_rnr_timer = 12;
      dest_qp_num = ep.qpn;
      rq_psn = 0;
      is_global = 0;
      dlid = dlid;
      port_num = dev.port_num;
      dgid = none;
      hop_limit = 0;
      sgid_index = 0;
    }

    global : ℤ → RtrAttr
    global (pos n) = record base {
      is_global = 1;
      port_num = 1;
      dgid = some dgid;
      hop_limit = 1;
      sgid_index = n;
    }
    global (negsuc n) = base

unfoldable pub rc_qp_init_to_rtr :
    {D : Type 0} → Verbs D → IbDevice → ℕ → Endpoint → (dlid : ℕ) (dgid : List ℕ) → D → ℕ × D
rc_qp_init_to_rtr v dev i ep dlid dgid d =
    let (rc, d') = v.ibv_modify_qp i (to_rtr (rtr_attr dev ep dlid dgid)) d in (error_return rc, d')

abbrev pub rts_attr : IbDevice → RtsAttr
rts_attr dev = record {
  timeout = 1;
  retry_cnt = 0;
  rnr_retry = 7;
  sq_psn = 0;
  max_rd_atomic = dev.max_qp_rd_atom;
}

unfoldable pub rc_qp_rtr_to_rts : {D : Type 0} → Verbs D → IbDevice → ℕ → D → ℕ × D
rc_qp_rtr_to_rts v dev i d =
    let (rc, d') = v.ibv_modify_qp i (to_rts (rts_attr dev)) d in (error_return rc, d')

unfoldable pub rc_connect_server :
    {D : Type 0}
    → Verbs D
    → IbDevice
    → ℕ
    → Endpoint
    → (dlid : ℕ) (dgid : List ℕ) → D
    → ℕ × Endpoint × D
rc_connect_server v dev idx ep dlid dgid d =
    let (rc, ep', d') = rc_qp_reset_to_init v dev idx ep d in
    let (rc', d'') = rc_qp_init_to_rtr v dev idx ep' dlid dgid d' in
    let (rc'', d''') = rc_qp_rtr_to_rts v dev idx d'' in
    if rc == 0
    then (if rc' == 0
        then (if rc'' == 0 then (0, ep', d''') else (1, ep', d'''))
        else (1, ep', d''))
    else (1, ep', d')
