-- ===== src/EvMgr/Replay.antt =====
-- The callbacks of the event manager on a replica: an applied record is replayed to the local
-- server through a socket of the replica's own. What the operating system does is an argument: the
-- descriptor that `socket` returns, and the one that the server's `accept` returns.
use rdma_paxos.Prelude.{
  ℕ, Bool, true, false, ◌-◌, ◌==◌, if◌then◌else◌, List, [], ◌∷◌, Option, none, some, take,
}
use rdma_paxos.ViewStamp.{ViewStamp}
use rdma_paxos.Db.{BerkeleyDb, RequestRecord, retrieve_record}
use rdma_paxos.Consensus.Types.{p_tcp_connect, p_udp_connect, p_send, p_close}
use rdma_paxos.EvMgr.Maps.{hash_find, hash_del, hash_put, same_stamp}

pub record ReplicaTcpPair : Type 0 where
  pub p_s : ℕ
  pub s_p : ℕ
  pub accepted : Bool

-- What the local server is sent.
pub data Effect : Type 0 where
  connected : ℕ → Effect
  written : ℕ → List ℕ → Effect
  closed : ℕ → Effect

pub record ReplicaMgr : Type 0 where
  pub replica_tcp_map : List (ViewStamp × ReplicaTcpPair)
  pub cur_rec : ℕ

abbrev pub new_pair : ReplicaTcpPair
new_pair = record { p_s = 0; s_p = 0; accepted = false }

-- The table with a pair for the key: the one that is there, or a new one.
unfoldable pub with_pair :
    List (ViewStamp × ReplicaTcpPair)
    → ViewStamp
    → ReplicaTcpPair × List (ViewStamp × ReplicaTcpPair)
with_pair m clt_id = elim (hash_find same_stamp m clt_id) [
  | none ↦ (new_pair, (clt_id, new_pair) ∷ m)
  | some p ↦ (p, m)
]

-- A pair whose socket is `fd`, both for TCP and for UDP, up to the wait.
unfoldable pub open_pair : ReplicaMgr → ViewStamp → ℕ → ReplicaMgr
open_pair m clt_id fd =
    let (p, map) = with_pair m.replica_tcp_map clt_id in
    record m { replica_tcp_map = hash_put same_stamp map clt_id (record p { p_s = fd }) }

-- The part of `mgr_on_accept` for a replica, run by the server's thread, once the record is there;
-- `none` if no pair has its key: the null pointer is written to.
unfoldable pub accept_pair : ReplicaMgr → RequestRecord → ℕ → Option ReplicaMgr
accept_pair m r s_p = elim (hash_find same_stamp m.replica_tcp_map r.clt_id) [
  | none ↦ none
  | some p ↦ some (record m {
    replica_tcp_map =
        hash_put same_stamp m.replica_tcp_map r.clt_id (record p { s_p = s_p; accepted = true });
  })
]

-- `do_action_tcp_connect`, with the server's accept of the connection during the wait.
unfoldable pub do_action_tcp_connect :
    ReplicaMgr → RequestRecord → (fd s_p : ℕ) → Option (ReplicaMgr × List Effect)
do_action_tcp_connect m r fd s_p = elim (accept_pair (open_pair m r.clt_id fd) r s_p) [
  | none ↦ none
  | some m' ↦ some (m', connected fd ∷ [])
]

unfoldable pub do_action_udp_connect :
    ReplicaMgr → ViewStamp → ℕ → Option (ReplicaMgr × List Effect)
do_action_udp_connect m clt_id fd = some (open_pair m clt_id fd, connected fd ∷ [])

-- `data_size - 1` bytes of the data
unfoldable pub do_action_send : ReplicaMgr → RequestRecord → Option (ReplicaMgr × List Effect)
do_action_send m r = elim (hash_find same_stamp m.replica_tcp_map r.clt_id) [
  | none ↦ some (m, [])
  | some p ↦ some (m, written p.p_s (take (r.data_size - 1) r.bytes) ∷ [])
]

unfoldable pub do_action_close : ReplicaMgr → ViewStamp → Option (ReplicaMgr × List Effect)
do_action_close m clt_id = elim (hash_find same_stamp m.replica_tcp_map clt_id) [
  | none ↦ some (m, [])
  | some p ↦ some (
    record m { replica_tcp_map = hash_del same_stamp m.replica_tcp_map clt_id },
    closed p.p_s ∷ [],
  )
]

-- The switch of `update_state` on the type of the record.
unfoldable pub replay_record :
    ReplicaMgr → RequestRecord → (fd s_p : ℕ) → Option (ReplicaMgr × List Effect)
replay_record m r fd s_p =
    if r.type == p_tcp_connect
    then do_action_tcp_connect m r fd s_p
    else if r.type == p_udp_connect
    then do_action_udp_connect m r.clt_id fd
    else if r.type == p_send
    then do_action_send m r
    else if r.type == p_close
    then do_action_close m r.clt_id
    else some (m, [])

-- `get_mapping_fd`; `none` if the null pointer is read.
unfoldable pub get_mapping_fd : ReplicaMgr → ViewStamp → Option ℕ
get_mapping_fd m clt_id = elim (hash_find same_stamp m.replica_tcp_map clt_id) [
  | none ↦ none
  | some p ↦ some p.s_p
]

module _ (bdb : BerkeleyDb) where
  -- `none` if there is no such record: the null pointer is used.
  unfoldable pub update_state :
      Option (BerkeleyDb.Handle bdb)
      → ReplicaMgr
      → ℕ
      → (fd s_p : ℕ) → Option (ReplicaMgr × List Effect)
  update_state db m index fd s_p = elim ((retrieve_record bdb db index).1) [
    | none ↦ none
    | some r ↦ replay_record (record m { cur_rec = index }) r fd s_p
  ]
