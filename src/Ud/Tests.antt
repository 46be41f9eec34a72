-- ===== src/Ud/Tests.antt =====
-- Tests of the datagrams, and the theorems at concrete servers.
use native.Mathlib.Omega.{arith}
use rdma_paxos.Prelude.{ℕ, true, none, ◌+◌, ◌*◌, ◌≡◌, refl, [], false}
use rdma_paxos.Rc.Verbs.{QpState, reset, rts}
use rdma_paxos.Rc.Samples.{
  qp_state, obedient, obedient-IsQpMachine, obedient-IsWilling, device, unconnected,
}
use rdma_paxos.Ud.Handlers.{
  ud_destroy_request, Datagram, Local, UdState, handle_rc_syn, handle_rc_synack,
  ud_exchange_rc_info,
}
use rdma_paxos.Ud.Event.{event, is_fault, event-is_fault}
use rdma_paxos.Ud.Handshake.{linked, handshake, handle_rc_syn_again}

abbrev local : ℕ → Local
local i = record { idx = i; size = 3; qp_num = λ j. 100 * i + j; dev = device; queried_gid = [] }

abbrev start : UdState (ℕ → QpState)
start = record { servers = λ i. unconnected; cur_view = none; device = λ i. reset }

handshake_example :
    let (reply, sb) = handle_rc_syn obedient (local 2) (ud_exchange_rc_info (local 1)) start in
    let sa = handle_rc_synack obedient (local 1) reply start in
    (sa.servers 2 ≡ linked (local 2) 201)
    × (sb.servers 1 ≡ linked (local 1) 102)
    × (qp_state 2 sa.device ≡ rts)
    × (qp_state 1 sb.device ≡ rts)
handshake_example =
    handshake obedient obedient qp_state qp_state (local 1) (local 2) start start
      obedient-IsQpMachine obedient-IsWilling obedient-IsQpMachine obedient-IsWilling (omega arith)
      refl refl refl refl

abbrev other_syn : Datagram
other_syn = record {
  type = 1;
  length = 0;
  raddr = 8192;
  rkey = 5;
  idx = 1;
  lid = 3;
  gid = [];
  qpns = λ i. 7;
}

handle_rc_syn_again_example :
    let first = handle_rc_syn obedient (local 2) (ud_exchange_rc_info (local 1)) start in
    handle_rc_syn obedient (local 2) other_syn first.1 ≡ first
unfolding ud_exchange_rc_info
handle_rc_syn_again_example =
    handle_rc_syn_again obedient (local 2) (ud_exchange_rc_info (local 1)) other_syn start refl refl

-- A DESTROY of the server 8, and one of the server 2.
destroyed_8 :
    is_fault (event obedient false false (local 2) (ud_destroy_request (local 8)) start) ≡ true
unfolding ud_destroy_request
destroyed_8 = event-is_fault obedient false (local 2) (ud_destroy_request (local 8)) start refl

destroyed_2 :
    is_fault (event obedient false true (local 1) (ud_destroy_request (local 2)) start) ≡ false
unfolding ud_destroy_request
destroyed_2 = event-is_fault obedient true (local 1) (ud_destroy_request (local 2)) start refl
