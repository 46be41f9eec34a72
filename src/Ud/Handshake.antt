-- ===== src/Ud/Handshake.antt =====
-- The exchange of the connection data between two servers: `ud_exchange_rc_info` on the one,
-- `handle_rc_syn` on the other, `handle_rc_synack` on the first.

use rdma_paxos.Prelude.{ℕ, ◌≡◌, ◌<◌, ◌∙◌, refl, ap, ==_refl, lt→ltb}
use rdma_paxos.Consensus.Types.{Endpoint}
use rdma_paxos.Rc.Verbs.{QpState, reset, rts, Verbs, IsQpMachine, IsWilling}
use rdma_paxos.Rc.Machine.{rc_connect_server-endpoint, rc_connect_server_lem}
use rdma_paxos.Ud.Handlers.{
  Datagram, Local, UdState, with_peer, establish, synack_of, handle_rc_syn, handle_rc_synack,
  ud_exchange_rc_info,
}

-- The endpoint of a connection to `peer`, whose queue pair has the number `qpn`.
abbrev pub linked : Local → ℕ → Endpoint
linked peer qpn = record {
  rc_connected = 1;
  qpn = qpn;
  send_count = 0;
  raddr = peer.dev.lcl_raddr;
  rkey = peer.dev.lcl_rkey;
}

establish_lem :
    {D : Type 0} (v : Verbs D) (me : Local) (msg : Datagram) (qpn : ℕ) (st : UdState D)
    → (st.servers msg.idx).rc_connected ≡ 0
    → (establish v me msg qpn st).servers msg.idx
      ≡ record (with_peer msg qpn (st.servers msg.idx)) { send_count = 0 }
unfolding establish
establish_lem v me msg qpn st e =
    let ep = with_peer msg qpn (st.servers msg.idx) in
    rw (e, ==_refl msg.idx, establish)
      (rc_connect_server-endpoint v me.dev msg.idx ep msg.lid msg.gid st.device)

establish-rts :
    {D : Type 0} (v : Verbs D) (state : ℕ → D → QpState) (me : Local) (msg : Datagram) (qpn : ℕ)
    (st : UdState D)
    → IsQpMachine v state
    → IsWilling v state
    → (st.servers msg.idx).rc_connected ≡ 0
    → state msg.idx st.device ≡ reset
    → state msg.idx (establish v me msg qpn st).device ≡ rts
unfolding establish
establish-rts v state me msg qpn st m w e r =
    let ep = with_peer msg qpn (st.servers msg.idx) in
    rw (e, establish)
      (rc_connect_server_lem v state m me.dev msg.idx ep msg.lid msg.gid st.device w r).1

-- A server that is already connected is left as it is.
establish-connected :
    {D : Type 0} (v : Verbs D) (me : Local) (msg : Datagram) (qpn : ℕ) (st : UdState D)
    → (st.servers msg.idx).rc_connected ≡ 1
    → establish v me msg qpn st ≡ st
unfolding establish
establish-connected v me msg qpn st e = rw (e, establish) refl

-- A RC_SYN of a server that is handled after another of its, whatever they say, gives the same reply
-- and changes nothing.
pub handle_rc_syn_again :
    {D : Type 0} (v : Verbs D) (me : Local) (msg msg' : Datagram) (st : UdState D)
    → msg'.idx ≡ msg.idx
    → (st.servers msg.idx).rc_connected ≡ 0
    → let first = handle_rc_syn v me msg st in handle_rc_syn v me msg' first.1 ≡ first
unfolding handle_rc_syn synack_of
handle_rc_syn_again v me msg msg' st same e =
    let st' = establish v me msg (msg.qpns me.idx) st in
    let connected : (st'.servers msg'.idx).rc_connected ≡ 1 =
      rw same (ap (λ ep. ep.rc_connected) (establish_lem v me msg (msg.qpns me.idx) st e)) in
    rw
      (
        establish-connected v me msg' (msg'.qpns me.idx) st' connected,
        same,
        handle_rc_syn,
        synack_of,
      )
      refl

-- The connection data that one server sends, and another answers, make a connection at both ends: the
-- endpoint of each has the registered memory of the other and the number of its queue pair for it,
-- and the queue pairs of both are ready to send. Before, neither end is connected and the queue pairs
-- are in RESET; the devices do every allowed move.
pub handshake :
    {C D : Type 0} (v : Verbs C) (w : Verbs D) (vstate : ℕ → C → QpState) (wstate : ℕ → D → QpState)
    (a b : Local) (sa : UdState C) (sb : UdState D)
    → IsQpMachine v vstate
    → IsWilling v vstate
    → IsQpMachine w wstate
    → IsWilling w wstate
    → b.idx < a.size
    → (sa.servers b.idx).rc_connected ≡ 0
    → (sb.servers a.idx).rc_connected ≡ 0
    → vstate b.idx sa.device ≡ reset
    → wstate a.idx sb.device ≡ reset
    → let (reply, sb') = handle_rc_syn w b (ud_exchange_rc_info a) sb in
      let sa' = handle_rc_synack v a reply sa in
      (sa'.servers b.idx ≡ linked b (b.qp_num a.idx))
      × (sb'.servers a.idx ≡ linked a (a.qp_num b.idx))
      × (vstate b.idx sa'.device ≡ rts)
      × (wstate a.idx sb'.device ≡ rts)
unfolding handle_rc_syn handle_rc_synack synack_of ud_exchange_rc_info
handshake v w vstate wstate a b sa sb vm vw wm ww lt ca cb ra rb =
    let syn = ud_exchange_rc_info a in
    let reply = synack_of b syn in
    (
      establish_lem v a reply (b.qp_num a.idx) sa ca,
      establish_lem w b syn (syn.qpns b.idx) sb cb ∙ rw (lt→ltb b.idx a.size lt) refl,
      establish-rts v vstate a reply (b.qp_num a.idx) sa vm vw ca ra,
      establish-rts w wstate b syn (syn.qpns b.idx) sb wm ww cb rb,
    )
