-- ===== src/EvMgr/OneSocket.antt =====
-- The datagrams of all clients, from the leader's hook through the stored records to the replay on a
-- replica.

use rdma_paxos.Prelude.{
  ℕ, suc, ◌+◌, ◌^◌, ◌<◌, ◌≡◌, ◌∙◌, refl, ap, sym, subst, true, false, Bool-cases, inl, inr, List,
  [], ◌∷◌, ◌++◌, none, some, map, length, append_assoc, append-nil,
}
use rdma_paxos.Log.{zero_stamp}
use rdma_paxos.Db.{BerkeleyDb, RequestRecord}
use rdma_paxos.Output.Library.{OutputLib}
use rdma_paxos.EvMgr.Maps.{hash_find, same_stamp}
use rdma_paxos.EvMgr.Leader.{LeaderMgr, leads}
use rdma_paxos.EvMgr.Replay.{Effect, connected, written, ReplicaMgr, replay_record}
use rdma_paxos.EvMgr.Replayed.{IsSend}
use rdma_paxos.Consensus.Flowing.{IsWritable}
use rdma_paxos.EvMgr.Idle.{IsIdle}
use rdma_paxos.EvMgr.Serving.{recs}
use rdma_paxos.EvMgr.Datagrams.{
  UdpInput, key_of, is_known, HasClients, on_datagram, on_datagram_known, on_datagram_new,
  after_known, after_new, after_known-HasClients, after_new-HasClients, after_known-recs,
  after_new-recs,
}
use rdma_paxos.EvMgr.Sockets.{
  on_socket, replay_from, to_last_socket, connect_first, connect_again, send_on, replay_from-cons,
  delivered, delivered-to_last_socket,
}

-- Every datagram is shorter than the word that holds its size.
abbrev pub AllFit : List UdpInput → Type 0
AllFit [] = Unit
AllFit (d ∷ more) = (length d.buf + 1 < 2 ^ 64) × AllFit more

module _ (bdb : BerkeleyDb) (lib : OutputLib) (fd : ℕ → ℕ) where
  -- The datagrams one after the other.
  unfoldable pub receive_all : LeaderMgr bdb lib → List UdpInput → LeaderMgr bdb lib
  receive_all m [] = m
  receive_all m (d ∷ more) = receive_all (on_datagram bdb lib m d) more

  -- The records of the datagrams, and their replay from a replica to another.
  pub record Replays (m : LeaderMgr bdb lib) (ds : List UdpInput) (k : ℕ) (rm : ReplicaMgr)
      (effects : List Effect) : Type 0 where
    pub rs : List RequestRecord
    pub rm' : ReplicaMgr
    pub stored : recs bdb lib (receive_all m ds).con_node ≡ recs bdb lib m.con_node ++ rs
    pub resting : IsIdle bdb (receive_all m ds).con_node
    pub replayed : replay_from rm rs fd k ≡ some (rm', effects)

  after_one :
      (m m' : LeaderMgr bdb lib) (d : UdpInput) (more : List UdpInput) (k current : ℕ)
      (rm : ReplicaMgr) (r : RequestRecord) (effects : List Effect)
      → on_datagram bdb lib m d ≡ m'
      → recs bdb lib m'.con_node ≡ recs bdb lib m.con_node ++ r ∷ []
      → IsSend zero_stamp d.buf r
      → Replays m' more (suc k) (on_socket rm current) effects
      → Replays m (d ∷ more) k (on_socket rm current) (written current d.buf ∷ effects)
  unfolding receive_all
  after_one m m' d more k current rm r effects e stored is later = record {
    resting = subst (λ x. IsIdle bdb (receive_all x more).con_node) (sym e) later.resting;
    rs = r ∷ later.rs;
    rm' = later.rm';
    stored =
        ap (λ x. recs bdb lib (receive_all x more).con_node) e
        ∙ later.stored
        ∙ ap (λ l. l ++ later.rs) stored
        ∙ append_assoc (recs bdb lib m.con_node) (r ∷ []) later.rs;
    replayed =
        replay_from-cons (on_socket rm current) (on_socket rm current) later.rm' r later.rs fd k
          (written current d.buf ∷ []) effects (send_on rm r d.buf current (fd k) is)
          later.replayed;
  }

  after_two :
      (m m' : LeaderMgr bdb lib) (d : UdpInput) (more : List UdpInput) (k : ℕ)
      (before rm : ReplicaMgr) (c r : RequestRecord) (effects : List Effect)
      → on_datagram bdb lib m d ≡ m'
      → recs bdb lib m'.con_node ≡ recs bdb lib m.con_node ++ c ∷ r ∷ []
      → replay_record before c (fd k) 0 ≡ some (on_socket rm (fd k), connected (fd k) ∷ [])
      → IsSend zero_stamp d.buf r
      → Replays m' more (suc (suc k)) (on_socket rm (fd k)) effects
      → Replays m (d ∷ more) k before (connected (fd k) ∷ written (fd k) d.buf ∷ effects)
  unfolding receive_all
  after_two m m' d more k before rm c r effects e stored opens is later = record {
    resting = subst (λ x. IsIdle bdb (receive_all x more).con_node) (sym e) later.resting;
    rs = c ∷ r ∷ later.rs;
    rm' = later.rm';
    stored =
        ap (λ x. recs bdb lib (receive_all x more).con_node) e
        ∙ later.stored
        ∙ ap (λ l. l ++ later.rs) stored
        ∙ append_assoc (recs bdb lib m.con_node) (c ∷ r ∷ []) later.rs;
    replayed =
        replay_from-cons before (on_socket rm (fd k)) later.rm' c (r ∷ later.rs) fd k
          (connected (fd k) ∷ []) (written (fd k) d.buf ∷ effects) opens
          (replay_from-cons (on_socket rm (fd k)) (on_socket rm (fd k)) later.rm' r later.rs fd
            (suc k) (written (fd k) d.buf ∷ []) effects (send_on rm r d.buf (fd k) (fd (suc k)) is)
            later.replayed);
  }

  receive_all-Replays :
      (m : LeaderMgr bdb lib) (keys : List (List ℕ)) (ds : List UdpInput) (k current : ℕ)
      (rm : ReplicaMgr)
      → IsWritable bdb
      → HasClients bdb lib m keys
      → AllFit ds
      → Replays m ds k (on_socket rm current) (to_last_socket keys fd k current ds)
  unfolding receive_all replay_from
  receive_all-Replays m keys [] k current rm puts has fit = record {
    resting = has.resting;
    rs = [];
    rm' = on_socket rm current;
    stored = sym (append-nil (recs bdb lib m.con_node));
    replayed = refl;
  }
  receive_all-Replays m keys (d ∷ more) k current rm puts has fit =
      elim (Bool-cases (is_known keys (key_of d))) [
        | inl known ↦
            let (r, is, stored) = after_known-recs bdb lib m d puts has.resting fit.0 in
            rw known (
              after_one m (after_known bdb lib m d) d more k current rm r
                (to_last_socket keys fd (suc k) current more)
                (on_datagram_known bdb lib m keys d has known) stored is
                (receive_all-Replays (after_known bdb lib m d) keys more (suc k) current rm puts
                  (after_known-HasClients bdb lib m keys d puts has) fit.1))
        | inr new ↦
            let (c, r, is_connect, is, stored) =
              after_new-recs bdb lib m d puts has.resting fit.0 in
            rw new (
              after_two m (after_new bdb lib m d) d more k (on_socket rm current) rm c r
                (to_last_socket (key_of d ∷ keys) fd (suc (suc k)) (fd k) more)
                (on_datagram_new bdb lib m keys d puts has new) stored
                (connect_again rm c current (fd k) is_connect) is
                (receive_all-Replays (after_new bdb lib m d) (key_of d ∷ keys) more (suc (suc k))
                  (fd k) rm puts (after_new-HasClients bdb lib m keys d puts has) fit.1))
      ]

  -- From a leader without datagram clients and a replica without a pair for the stamp zero.
  receive_all-Replays_first :
      (m : LeaderMgr bdb lib) (ds : List UdpInput) (rm : ReplicaMgr)
      → IsWritable bdb
      → HasClients bdb lib m []
      → hash_find same_stamp rm.replica_tcp_map zero_stamp ≡ none
      → AllFit ds
      → Replays m ds 0 rm (to_last_socket [] fd 0 0 ds)
  unfolding receive_all replay_from
  receive_all-Replays_first m [] rm puts has fresh fit = record {
    resting = has.resting;
    rs = [];
    rm' = rm;
    stored = sym (append-nil (recs bdb lib m.con_node));
    replayed = refl;
  }
  receive_all-Replays_first m (d ∷ more) rm puts has fresh fit =
      let (c, r, is_connect, is, stored) = after_new-recs bdb lib m d puts has.resting fit.0 in
      after_two m (after_new bdb lib m d) d more 0 rm rm c r
        (to_last_socket (key_of d ∷ []) fd 2 (fd 0) more)
        (on_datagram_new bdb lib m [] d puts has refl) stored
        (connect_first rm c (fd 0) is_connect fresh) is
        (receive_all-Replays (after_new bdb lib m d) (key_of d ∷ []) more 2 (fd 0) rm puts
          (after_new-HasClients bdb lib m [] d puts has) fit.1)

  -- Datagrams, shorter than the word for their size, arrive at a leader that has no datagram clients
  -- yet, whose database is open and takes every record, and on which every stamp that was given out
  -- is committed. A quorum acknowledges every call, and no other call comes in between. Then no call is
  -- left in the wait for its turn to commit. What `mgr_on_recvfrom` stores are records that, replayed in order on a replica without a
  -- pair for the stamp zero, write all the data in order, each datagram once; but one socket is in
  -- use for all clients: the first datagram of each client opens a socket, and from then on the data
  -- of every client goes there.
  pub datagrams-replayed :
      (m : LeaderMgr bdb lib) (ds : List UdpInput) (rm : ReplicaMgr)
      → IsWritable bdb
      → IsIdle bdb m.con_node
      → leads bdb lib m ≡ true
      → m.leader_udp_map ≡ []
      → hash_find same_stamp rm.replica_tcp_map zero_stamp ≡ none
      → AllFit ds
      → (rs : List RequestRecord) × (rm' : ReplicaMgr) × (recs bdb lib (receive_all m ds).con_node
          ≡ recs bdb lib m.con_node ++ rs)
        × ((receive_all m ds).con_node.waits ≡ false)
        × (replay_from rm rs fd 0 ≡ some (rm', to_last_socket [] fd 0 0 ds))
        × (delivered (to_last_socket [] fd 0 0 ds) ≡ map (λ d. d.buf) ds)
  datagrams-replayed m ds rm puts idle l none_yet fresh fit =
      let p =
        receive_all-Replays_first m ds rm puts
          (record { leading = l; resting = idle; clients = none_yet }) fresh fit in
      (p.rs, p.rm', p.stored, p.resting.goes, p.replayed, delivered-to_last_socket [] fd 0 0 ds)
