-- ===== src/EvMgr/Sockets.antt =====
-- The records of datagrams when a replica replays them: all the clients share a pair, since all have
-- the stamp zero.

use rdma_paxos.Prelude.{
  ℕ, suc, ◌≡◌, refl, ap, if◌then◌else◌, Bool-cases, inl, inr, List, [], ◌∷◌, ◌++◌, Option, none,
  some, map,
}
use rdma_paxos.Log.{zero_stamp}
use rdma_paxos.Db.{RequestRecord}
use rdma_paxos.Consensus.Types.{p_udp_connect}
use rdma_paxos.EvMgr.Maps.{hash_find, same_stamp}
use rdma_paxos.EvMgr.Replay.{
  Effect, connected, written, closed, ReplicaMgr, new_pair, replay_record, do_action_udp_connect,
  do_action_send, open_pair, with_pair,
}
use rdma_paxos.EvMgr.Replayed.{IsCall, IsSend, find_first, put_first, take_whole, open_fresh}
use rdma_paxos.EvMgr.Datagrams.{UdpInput, key_of, is_known}

-- The table with a datagram socket for the stamp zero.
abbrev pub on_socket : ReplicaMgr → ℕ → ReplicaMgr
on_socket rm fd = record rm {
  replica_tcp_map = (zero_stamp, record new_pair { p_s = fd }) ∷ rm.replica_tcp_map;
}

-- Records one after the other; the socket that record `k` opens, if it does, is `fd k`.
unfoldable pub replay_from :
    ReplicaMgr → List RequestRecord → (fd : ℕ → ℕ) → ℕ → Option (ReplicaMgr × List Effect)
replay_from rm [] fd k = some (rm, [])
replay_from rm (r ∷ rs) fd k = elim (replay_record rm r (fd k) 0) [
  | none ↦ none
  | some a ↦ elim (replay_from a.0 rs fd (suc k)) [ none ↦ none | some b ↦ some (b.0, a.1 ++ b.1) ]
]

-- All the data goes to one socket, the one that was opened for the last new client, whoever it is
-- from.
abbrev pub to_last_socket :
    List (List ℕ) → (fd : ℕ → ℕ) → ℕ → (current : ℕ) → List UdpInput → List Effect
to_last_socket keys fd k current [] = []
to_last_socket keys fd k current (d ∷ more) =
    if is_known keys (key_of d)
    then written current d.buf ∷ to_last_socket keys fd (suc k) current more
    else connected (fd k)
      ∷ written (fd k) d.buf
      ∷ to_last_socket (key_of d ∷ keys) fd (suc (suc k)) (fd k) more

pub connect_first :
    (rm : ReplicaMgr) (r : RequestRecord) (fd : ℕ)
    → IsCall p_udp_connect zero_stamp r
    → hash_find same_stamp rm.replica_tcp_map zero_stamp ≡ none
    → replay_record rm r fd 0 ≡ some (on_socket rm fd, connected fd ∷ [])
unfolding replay_record do_action_udp_connect
connect_first rm r fd is fresh = rw (is.type_is, is.clt_is, open_fresh rm zero_stamp fd fresh) refl

reopened :
    (rm : ReplicaMgr) (fd fd' : ℕ) → open_pair (on_socket rm fd) zero_stamp fd' ≡ on_socket rm fd'
unfolding open_pair with_pair
reopened rm fd fd' =
    rw
      (
        find_first zero_stamp (record new_pair { p_s = fd }) rm.replica_tcp_map,
        with_pair,
        put_first zero_stamp (record new_pair { p_s = fd }) rm.replica_tcp_map
            (record new_pair { p_s = fd' }),
      )
      refl

pub connect_again :
    (rm : ReplicaMgr) (r : RequestRecord) (fd fd' : ℕ)
    → IsCall p_udp_connect zero_stamp r
    → replay_record (on_socket rm fd) r fd' 0 ≡ some (on_socket rm fd', connected fd' ∷ [])
unfolding replay_record do_action_udp_connect
connect_again rm r fd fd' is = rw (is.type_is, is.clt_is, reopened rm fd fd') refl

pub send_on :
    (rm : ReplicaMgr) (r : RequestRecord) (bs : List ℕ) (fd fd' : ℕ)
    → IsSend zero_stamp bs r
    → replay_record (on_socket rm fd) r fd' 0 ≡ some (on_socket rm fd, written fd bs ∷ [])
unfolding replay_record do_action_send
send_on rm r bs fd fd' is =
    rw
      (
        is.call.type_is,
        is.call.clt_is,
        find_first zero_stamp (record new_pair { p_s = fd }) rm.replica_tcp_map,
        do_action_send,
        is.size_is,
        is.bytes_are,
        take_whole bs,
      )
      refl

pub replay_from-cons :
    (rm rm' rm'' : ReplicaMgr) (r : RequestRecord) (rs : List RequestRecord) (fd : ℕ → ℕ) (k : ℕ)
    (xs ys : List Effect)
    → replay_record rm r (fd k) 0 ≡ some (rm', xs)
    → replay_from rm' rs fd (suc k) ≡ some (rm'', ys)
    → replay_from rm (r ∷ rs) fd k ≡ some (rm'', xs ++ ys)
unfolding replay_from
replay_from-cons rm rm' rm'' r rs fd k xs ys e e' = rw (e, replay_from, e') refl

-- The data that is written, in order.
abbrev pub delivered : List Effect → List (List ℕ)
delivered [] = []
delivered (connected fd ∷ later) = delivered later
delivered (written fd bs ∷ later) = bs ∷ delivered later
delivered (closed fd ∷ later) = delivered later

pub delivered-to_last_socket :
    (keys : List (List ℕ)) (fd : ℕ → ℕ) (k current : ℕ) (ds : List UdpInput)
    → delivered (to_last_socket keys fd k current ds) ≡ map (λ d. d.buf) ds
delivered-to_last_socket keys fd k current [] = refl
delivered-to_last_socket keys fd k current (d ∷ more) =
    elim (Bool-cases (is_known keys (key_of d))) [
      | inl known ↦
          rw known (ap (λ l. d.buf ∷ l) (delivered-to_last_socket keys fd (suc k) current more))
      | inr new ↦ rw new (
          ap (λ l. d.buf ∷ l)
            (delivered-to_last_socket (key_of d ∷ keys) fd (suc (suc k)) (fd k) more))
    ]
