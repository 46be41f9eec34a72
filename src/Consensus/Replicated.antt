-- ===== src/Consensus/Replicated.antt =====
-- A replica that follows the log of the leader over a sequence of requests.

use rdma_paxos.Prelude.{
  ℕ, ◌+◌, ◌^◌, ◌<◌, ◌≡◌, ◌≢◌, true, List, [], ◌∷◌, length, some, none, Option, ℤ, if◌then◌else◌,
}
use rdma_paxos.ViewStamp.{ViewStamp}
use rdma_paxos.Log.{LogEntry}
use rdma_paxos.Db.{BerkeleyDb}
use rdma_paxos.Consensus.Types.{ConsensusComponent, ServerData, Send}
use rdma_paxos.Consensus.Leader.{Reserved}
use rdma_paxos.Consensus.Sends.{is_peer}
use rdma_paxos.Consensus.Reached.{is_sent}
use rdma_paxos.Consensus.Replica.{ReplicaState, Accepted, accept_round, overwritten}
use rdma_paxos.Consensus.Apply.{IsBounded}
use rdma_paxos.Consensus.Delivery.{received, reserved, submitted}
use rdma_paxos.Consensus.Alike.{Alike}

-- A request, with what may have changed before it: the committed stamp of the leader and the memory
-- of the two logs.
pub record Turn : Type 0 where
  pub committed : ViewStamp
  pub mine : ℕ → LogEntry
  pub theirs : ℕ → LogEntry
  pub type : ℕ
  pub clt_id : ViewStamp
  pub bytes : List ℕ

pub record IsTurn (t : Turn) : Type 0 where
  pub bounded : IsBounded t.committed
  pub fits : length t.bytes + 1 < 2 ^ 64

abbrev pub AllTurns : List Turn → Type 0
AllTurns [] = Unit
AllTurns (t ∷ later) = IsTurn t × AllTurns later

module _ (bdb : BerkeleyDb) where
  -- The leader and one replica.
  pub record Pair : Type 0 where
    pub comp : ConsensusComponent
    pub srv : ServerData
    pub db : Option (BerkeleyDb.Handle bdb)
    pub replica : ReplicaState bdb

  -- The logs are written up to the same place and the databases hold the same.
  pub record InStep (p : Pair) : Type 0 where
    pub alike : Alike bdb p.db p.replica.db
    pub len : p.replica.srv.log.len ≡ p.srv.log.len
    pub end : p.replica.srv.log.end ≡ p.srv.log.end

  -- Both databases are open, the leader has a connection to the replica, and the replica follows.
  pub record IsPair (p : Pair) : Type 0 where
    pub mine : (h : BerkeleyDb.Handle bdb) × (p.db ≡ some h)
    pub theirs : (h : BerkeleyDb.Handle bdb) × (p.replica.db ≡ some h)
    pub connected : is_peer p.srv p.comp.group_size p.replica.comp.node_id ≡ true
    pub follows : p.replica.comp.cur_view.leader_id ≢ p.replica.comp.node_id
    pub bounded : IsBounded p.replica.comp.highest_committed_vs

  module _ (ug : ViewStamp → ℕ) (get_output_hash : ℕ → ℤ → ℕ) where
    -- The pair before the request, and what the leader and the replica then do.
    abbrev before : Pair → Turn → Pair
    before p t = record p {
      comp = record p.comp { highest_committed_vs = t.committed };
      srv = record p.srv { log = record p.srv.log { entries = t.mine } };
      replica = overwritten bdb ug get_output_hash p.replica t.theirs;
    }

    abbrev call : Pair → Turn → Reserved × ConsensusComponent × ServerData
    call p t = reserved bdb ug get_output_hash p.comp p.srv p.db t.type t.clt_id t.bytes

    abbrev sent : Pair → Turn → Option (List Send) × ServerData × Option (BerkeleyDb.Handle bdb)
    sent p t = submitted bdb ug get_output_hash p.comp p.srv p.db t.type t.clt_id t.bytes

    -- The replica with what the leader has written to it: if none of the posted writes is to its
    -- number and to the place of the entry, its memory is as it was.
    abbrev arrived : Pair → Turn → ReplicaState bdb
    arrived p t =
        if is_sent p.srv p.replica.comp.node_id (call p t)
        then received bdb ug get_output_hash p.replica (sent p t).1 (call p t).0
        else p.replica

    -- The pair after a round of the replica.
    abbrev after_round : Pair → Turn → Option (Accepted bdb) → Option Pair
    after_round p t none = none
    after_round p t (some a) =
        some
          (record { comp = (call p t).1; srv = (sent p t).1; db = (sent p t).2; replica = a.state })

    abbrev serve : Pair → Turn → Option Pair
    serve p t = after_round p t (accept_round bdb ug get_output_hash (arrived p t))

    -- The leader serves requests one after the other, and the replica makes one round after each
    -- write, before anything else changes its memory. What the leader does after the write, from
    -- `recheck` on, changes nothing here but its committed stamp, which is one of the next turn.
    unfoldable pub replicate : Pair → List Turn → Option Pair
    replicate p [] = some p
    replicate p (t ∷ later) = elim (serve (before p t) t) [
      | none ↦ none
      | some p' ↦ replicate p' later
    ]
