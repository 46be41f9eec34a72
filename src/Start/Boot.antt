-- ===== src/Start/Boot.antt =====
-- A leader and a replica from their start on.
use rdma_paxos.Prelude.{ℕ, ◌≡◌, List, Option, some, Bool}
use rdma_paxos.ViewStamp.{ViewStamp}
use rdma_paxos.Log.{DareLog}
use rdma_paxos.Db.{BerkeleyDb}
use rdma_paxos.Consensus.Types.{Endpoint, ServerData}
use rdma_paxos.Consensus.Alike.{Alike}
use rdma_paxos.Consensus.Replicated.{Pair}
use rdma_paxos.Config.Readers.{Libconfig}
use rdma_paxos.Start.Database.{DbOpening}
use rdma_paxos.Start.Node.{Files}
use rdma_paxos.Start.Server.{Machine, DareServer}
use rdma_paxos.Start.Manager.{Thread, Process, alive, EventManager, mgr_init}

-- A process that has started: its manager, the data of its server, and the endpoints that the
-- handshake has made since.
pub record Running (H : Type 0) : Type 0 where
  pub mgr : EventManager H
  pub server : DareServer
  pub log : DareLog
  pub endpoints : ℕ → Endpoint

abbrev pub server_data : {H : Type 0} → Running H → ServerData
server_data r = record { idx = r.server.idx; log = r.log; servers = r.endpoints }

-- `mgr_init` has returned the manager, with the server and its log.
pub record IsStarted (H : Type 0) (r : Running H) (p : Process (Option (EventManager H)))
    : Type 0 where
  pub result : p ≡ alive (some r.mgr)
  pub with_server : r.mgr.server ≡ some r.server
  pub with_log : r.server.log ≡ some r.log

-- What a process starts with.
pub record Site (H F S : Type 0) : Type 0 where
  pub lc : Libconfig F S
  pub lib : DbOpening H
  pub files : Files
  pub machine : Machine
  pub pthread_create : Thread → Bool
  pub id : ℕ
  pub mode : ℕ
  pub config_path : List ℕ
  pub log_path : Option (List ℕ)

abbrev pub start : {H F S : Type 0} → Site H F S → Process (Option (EventManager H))
start x =
    mgr_init x.pthread_create x.lc x.lib x.files x.machine x.id x.config_path x.log_path
      (some x.mode)

module _ (bdb : BerkeleyDb) where
  open bdb use {Handle}

  -- The first process with the second as its replica.
  abbrev pub pair_of : Running Handle → Running Handle → Pair bdb
  pair_of l r = record {
    comp = l.mgr.con_node.comp;
    srv = server_data l;
    db = some l.mgr.db;
    replica = record { comp = r.mgr.con_node.comp; srv = server_data r; db = some r.mgr.db };
  }
