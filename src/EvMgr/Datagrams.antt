-- ===== src/EvMgr/Datagrams.antt =====
-- What `mgr_on_recvfrom` stores for datagrams.
use native.Mathlib.Omega.{arith}
use rdma_paxos.Prelude.{
  ℕ, ◌+◌, ◌^◌, ◌<◌, ◌≡◌, ◌∙◌, refl, ap, ◌==◌, true, false, Bool, ◌||◌, List, [], ◌∷◌, ◌++◌, none,
  some, length, append_assoc, take,
}
use rdma_paxos.ViewStamp.{ViewStamp}
use rdma_paxos.Log.{zero_stamp}
use rdma_paxos.Db.{BerkeleyDb, RequestRecord}
use rdma_paxos.Consensus.Types.{p_send, p_udp_connect}
use rdma_paxos.Consensus.Leader.{reserve, fill_entry, record_of}
use rdma_paxos.Output.Library.{OutputLib}
use rdma_paxos.EvMgr.Maps.{hash_find, same_bytes, c_string}
use rdma_paxos.Consensus.Flowing.{IsWritable}
use rdma_paxos.EvMgr.Rsm.{Node, rsm_op}
use rdma_paxos.EvMgr.Idle.{IsIdle, stored_by, rsm_op-clt_id, rsm_op-view, rsm_op-IsIdle}
use rdma_paxos.EvMgr.Leader.{LeaderMgr, leads, mgr_on_recvfrom}
use rdma_paxos.EvMgr.Replayed.{IsCall, IsSend}
use rdma_paxos.EvMgr.Serving.{stored-IsSend, recs, rsm_op-recs}

-- What arrives, and the address that it comes from.
pub record UdpInput : Type 0 where
  pub buf : List ℕ
  pub sa_data : List ℕ

-- The key of its client.
abbrev pub key_of : UdpInput → List ℕ
key_of d = c_string (take 14 d.sa_data)

abbrev pub is_known : List (List ℕ) → List ℕ → Bool
is_known [] key = false
is_known (k ∷ keys) key = same_bytes key k || is_known keys key

-- The table that has these keys, all with the stamp zero.
abbrev pub zero_pairs : List (List ℕ) → List (List ℕ × ViewStamp)
zero_pairs [] = []
zero_pairs (k ∷ keys) = (k, zero_stamp) ∷ zero_pairs keys

find_known :
    (keys : List (List ℕ)) (key : List ℕ)
    → is_known keys key ≡ true
    → hash_find same_bytes (zero_pairs keys) key ≡ some zero_stamp
unfolding hash_find
find_known [] key known = ground (arith, known)
find_known (k ∷ keys) key known = ground (arith, known, find_known keys key)

find_unknown :
    (keys : List (List ℕ)) (key : List ℕ)
    → is_known keys key ≡ false
    → hash_find same_bytes (zero_pairs keys) key ≡ none
unfolding hash_find
find_unknown [] key new = refl
find_unknown (k ∷ keys) key new = ground (arith, new, find_unknown keys key)

module _ (bdb : BerkeleyDb) (lib : OutputLib) where
  -- The leader has these clients.
  pub record HasClients (m : LeaderMgr bdb lib) (keys : List (List ℕ)) : Type 0 where
    pub leading : leads bdb lib m ≡ true
    pub resting : IsIdle bdb m.con_node
    pub clients : m.leader_udp_map ≡ zero_pairs keys

  rsm_op_zero :
      (node : Node bdb)
      → IsWritable bdb
      → IsIdle bdb node
      → (rsm_op bdb node 0 none p_udp_connect zero_stamp).0 ≡ zero_stamp
  unfolding reserve
  rsm_op_zero node puts idle = rsm_op-clt_id bdb puts node idle 0 none p_udp_connect zero_stamp

  stored_connect :
      (node : Node bdb)
      → IsCall p_udp_connect zero_stamp (stored_by bdb node 0 none p_udp_connect zero_stamp)
  unfolding reserve fill_entry record_of
  stored_connect node = record { type_is = refl; clt_is = refl }

  -- The manager after a datagram of a client that it has, and of a new one.
  abbrev pub after_known : LeaderMgr bdb lib → UdpInput → LeaderMgr bdb lib
  after_known m d = record m {
    con_node = (rsm_op bdb m.con_node (length d.buf) (some d.buf) p_send zero_stamp).2;
  }

  abbrev connected_node : LeaderMgr bdb lib → Node bdb
  connected_node m = (rsm_op bdb m.con_node 0 none p_udp_connect zero_stamp).2

  connected-IsIdle :
      (m : LeaderMgr bdb lib)
      → IsWritable bdb
      → IsIdle bdb m.con_node
      → IsIdle bdb (connected_node m)
  connected-IsIdle m puts idle =
      rsm_op-IsIdle bdb puts m.con_node idle 0 none p_udp_connect zero_stamp

  abbrev pub after_new : LeaderMgr bdb lib → UdpInput → LeaderMgr bdb lib
  after_new m d = record m {
    leader_udp_map = (key_of d, zero_stamp) ∷ m.leader_udp_map;
    con_node = (rsm_op bdb (connected_node m) (length d.buf) (some d.buf) p_send zero_stamp).2;
  }

  abbrev pub on_datagram : LeaderMgr bdb lib → UdpInput → LeaderMgr bdb lib
  on_datagram m d = mgr_on_recvfrom bdb lib false m d.buf (length d.buf) d.sa_data

  pub on_datagram_known :
      (m : LeaderMgr bdb lib) (keys : List (List ℕ)) (d : UdpInput)
      → HasClients m keys
      → is_known keys (key_of d) ≡ true
      → on_datagram m d ≡ after_known m d
  unfolding mgr_on_recvfrom
  on_datagram_known m keys d has known =
      let found : hash_find same_bytes m.leader_udp_map (key_of d) ≡ some zero_stamp =
        ap (λ t. hash_find same_bytes t (key_of d)) has.clients
        ∙ find_known keys (key_of d) known in
      rw (has.leading, found, mgr_on_recvfrom) refl

  pub on_datagram_new :
      (m : LeaderMgr bdb lib) (keys : List (List ℕ)) (d : UdpInput)
      → IsWritable bdb
      → HasClients m keys
      → is_known keys (key_of d) ≡ false
      → on_datagram m d ≡ after_new m d
  unfolding mgr_on_recvfrom
  on_datagram_new m keys d puts has new =
      let found : hash_find same_bytes m.leader_udp_map (key_of d) ≡ none =
        ap (λ t. hash_find same_bytes t (key_of d)) has.clients
        ∙ find_unknown keys (key_of d) new in
      rw (has.leading, found, mgr_on_recvfrom, rsm_op_zero m.con_node puts has.resting) refl

  pub after_known-HasClients :
      (m : LeaderMgr bdb lib) (keys : List (List ℕ)) (d : UdpInput)
      → IsWritable bdb
      → HasClients m keys
      → HasClients (after_known m d) keys
  after_known-HasClients m keys d puts has = record {
    leading =
        ap (λ v. m.node_id == v.leader_id)
          (rsm_op-view bdb puts m.con_node has.resting (length d.buf) (some d.buf) p_send
            zero_stamp)
        ∙ has.leading;
    resting =
        rsm_op-IsIdle bdb puts m.con_node has.resting (length d.buf) (some d.buf) p_send zero_stamp;
    clients = has.clients;
  }

  pub after_new-HasClients :
      (m : LeaderMgr bdb lib) (keys : List (List ℕ)) (d : UdpInput)
      → IsWritable bdb
      → HasClients m keys
      → HasClients (after_new m d) (key_of d ∷ keys)
  after_new-HasClients m keys d puts has = record {
    leading =
        ap (λ v. m.node_id == v.leader_id)
          (rsm_op-view bdb puts (connected_node m) (connected-IsIdle m puts has.resting)
              (length d.buf) (some d.buf) p_send zero_stamp
            ∙ rsm_op-view bdb puts m.con_node has.resting 0 none p_udp_connect zero_stamp)
        ∙ has.leading;
    resting =
        rsm_op-IsIdle bdb puts (connected_node m) (connected-IsIdle m puts has.resting)
          (length d.buf) (some d.buf) p_send zero_stamp;
    clients = ap (λ t. (key_of d, zero_stamp) ∷ t) has.clients;
  }

  -- The record of a datagram of a client that is there.
  pub after_known-recs :
      (m : LeaderMgr bdb lib) (d : UdpInput)
      → IsWritable bdb
      → IsIdle bdb m.con_node
      → length d.buf + 1 < 2 ^ 64
      → (r : RequestRecord) × IsSend zero_stamp d.buf r
        × (recs bdb lib (after_known m d).con_node ≡ recs bdb lib m.con_node ++ r ∷ [])
  after_known-recs m d puts idle short = (
    stored_by bdb m.con_node (length d.buf) (some d.buf) p_send zero_stamp,
    stored-IsSend bdb lib m.con_node d.buf zero_stamp short,
    rsm_op-recs bdb lib m.con_node (length d.buf) (some d.buf) p_send zero_stamp puts idle,
  )

  -- The records of the first datagram of a client.
  pub after_new-recs :
      (m : LeaderMgr bdb lib) (d : UdpInput)
      → IsWritable bdb
      → IsIdle bdb m.con_node
      → length d.buf + 1 < 2 ^ 64
      → (c r : RequestRecord) × IsCall p_udp_connect zero_stamp c
        × IsSend zero_stamp d.buf r
        × (recs bdb lib (after_new m d).con_node ≡ recs bdb lib m.con_node ++ c ∷ r ∷ [])
  after_new-recs m d puts idle short =
      let c = stored_by bdb m.con_node 0 none p_udp_connect zero_stamp in
      let r = stored_by bdb (connected_node m) (length d.buf) (some d.buf) p_send zero_stamp in
      (
        c,
        r,
        stored_connect m.con_node,
        stored-IsSend bdb lib (connected_node m) d.buf zero_stamp short,
        rsm_op-recs bdb lib (connected_node m) (length d.buf) (some d.buf) p_send zero_stamp puts
              (connected-IsIdle m puts idle)
            ∙ ap (λ l. l ++ r ∷ [])
                (rsm_op-recs bdb lib m.con_node 0 none p_udp_connect zero_stamp puts idle)
            ∙ append_assoc (recs bdb lib m.con_node) (c ∷ []) (r ∷ []),
      )
