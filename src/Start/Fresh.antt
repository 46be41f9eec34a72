-- ===== src/Start/Fresh.antt =====
-- What a process has when `mgr_init` has returned a manager.

use rdma_paxos.Prelude.{
  ℕ, zero, suc, ◌≡◌, ◌==◌, refl, ◌∙◌, ap, if◌then◌else◌, subst, ◌&&◌, Bool, false, List, [], ◌∷◌,
  Option, none, some, Bool-cases, Option-cases, inl, inr,
}
use rdma_paxos.Log.{log_new, log_size, DareLog}
use rdma_paxos.Consensus.Types.{init_consensus_comp}
use rdma_paxos.Config.Readers.{Libconfig, MgrConfig, consensus_read_config}
use rdma_paxos.Start.Database.{DbOpening}
use rdma_paxos.Start.Node.{
  Files, NodeState, start_view, is_error, zero_config, initialize_node, system_initialize,
}
use rdma_paxos.Start.Server.{
  Machine, Input, DareServer, Outcome, returned, exited, crashed, dare_server_init,
}
use rdma_paxos.Start.Held.{Leaves, dare_server_init-Leaves}
use rdma_paxos.Start.Manager.{
  Thread, rep_thread, check_point_thread, Process, alive, ended, faulted, EventManager, launched,
  launch_rdma, launch_replica_thread, initialised, mgr_on_process_init, returns, config_and_db,
  manager_of, mgr_init,
}
use rdma_paxos.Start.Numbered.{consensus_read_config-id}

-- The data of a server for the node `id`, if it is there, is new.
pub record IsNew (id : ℕ) (s : DareServer) : Type 0 where
  pub empty : s.log ≡ some log_new
  pub numbered : s.idx ≡ id

abbrev pub Serves : ℕ → Option DareServer → Type 0
Serves id none = Unit
Serves id (some s) = IsNew id s

-- The log of the server, if there is one, is empty: its end and its tail are its length, and no entry
-- has a stamp or data.
pub record IsEmpty (log : DareLog) : Type 0 where
  pub head : log.head ≡ 0
  pub len : log.len ≡ log_size
  pub end : log.end ≡ log_size
  pub tail : log.tail ≡ log_size
  pub stamps : (at : ℕ) → (log.entries at).msg_vs ≡ record { view_id = 0; req_id = 0 }
  pub sizes : (at : ℕ) → (log.entries at).data_size ≡ 0

abbrev pub HasEmpty : Option DareServer → Type 0
HasEmpty none = Unit
HasEmpty (some s) = (log : DareLog) × (s.log ≡ some log) × IsEmpty log

log_new-IsEmpty : IsEmpty log_new
unfolding log_new
log_new-IsEmpty = record {
  head = refl;
  len = refl;
  end = refl;
  tail = refl;
  stamps = λ at. refl;
  sizes = λ at. refl;
}

Serves-HasEmpty : (id : ℕ) (s : Option DareServer) → Serves id s → HasEmpty s
Serves-HasEmpty id none new = tt
Serves-HasEmpty id (some s) new = (log_new, new.empty, log_new-IsEmpty)

-- The node of a process that has started in the mode `mode` with the number `id`.
pub record IsFreshNode (mode id : ℕ) (n : NodeState) : Type 0 where
  pub comp : n.comp ≡ init_consensus_comp id n.config.size (start_view mode id)
  pub numbered : n.config.node_id ≡ id
  pub quiet : n.hb_on ≡ 0
  pub view : n.comp.cur_view ≡ (
      if mode == b's'
      then record { view_id = 1; leader_id = id; req_id = 0 }
      else record { view_id = 0; leader_id = 9999; req_id = 0 })
  pub seen : n.comp.highest_seen_vs ≡ record { view_id = 1; req_id = 0 }
  pub to_commit : n.comp.highest_to_commit_vs ≡ record { view_id = 1; req_id = 0 }
  pub committed : n.comp.highest_committed_vs ≡ record { view_id = 1; req_id = 0 }

abbrev pub NodeStarts : (mode id : ℕ) → Option NodeState → Type 0
NodeStarts mode id none = Unit
NodeStarts mode id (some n) = IsFreshNode mode id n

system_initialize-NodeStarts :
    {F S : Type 0} (lc : Libconfig F S) (files : Files) (id : ℕ) (path : List ℕ)
    (log_path : Option (List ℕ)) (mode : ℕ)
    → NodeStarts mode id (system_initialize lc files id path log_path mode)
unfolding system_initialize initialize_node start_view init_consensus_comp
system_initialize-NodeStarts lc files id path log_path mode =
    let read = consensus_read_config lc path (zero_config id) in
    elim (Bool-cases (is_error read.0)) [
      | inl bad ↦ rw (bad, system_initialize) tt
      | inr good ↦
          rw (good, system_initialize)
            (record {
              comp =
                  ap (λ k. init_consensus_comp k read.1.size (start_view mode id))
                    (consensus_read_config-id lc path (zero_config id));
              numbered = consensus_read_config-id lc path (zero_config id);
              quiet = refl;
              view = refl;
              seen = refl;
              to_commit = refl;
              committed = refl;
            })
    ]

abbrev pub Launches : ℕ → Process (ℕ × Option DareServer × Bool) → Type 0
Launches id (alive (code, server, hb)) = Serves id server × (hb ≡ false)
Launches id (ended status) = Unit
Launches id faulted = Unit

launched-Launches :
    (thread : Bool) (input : Input) (o : Outcome)
    → input.hb_on ≡ 0
    → Leaves thread input o
    → Launches input.server_idx (launched o)
launched-Launches thread input (returned zero s hb) off l = (
  record { empty = l.empty; numbered = l.numbered },
  l.heartbeats ∙ ap (λ n. n == 1 && thread) off,
)
launched-Launches thread input (returned (suc code) s hb) off l = (tt, l.1)
launched-Launches thread input (exited status calls s) off l = tt
launched-Launches thread input crashed off l = tt

launch_rdma-Launches :
    (m : Machine) (n : NodeState) → n.hb_on ≡ 0 → Launches n.config.node_id (launch_rdma m n)
unfolding launch_rdma
launch_rdma-Launches m n off =
    let input : Input = record {
      group_size = n.config.size;
      server_idx = n.config.node_id;
      hb_on = n.hb_on;
    } in
    launched-Launches m.hb_thread input (dare_server_init m input) off
      (dare_server_init-Leaves m input)

-- A manager as `mgr_init` returns it.
pub record IsFresh (H : Type 0) (mode id : ℕ) (mgr : EventManager H) : Type 0 where
  pub node : IsFreshNode mode id mgr.con_node
  pub server : Serves id mgr.server
  pub empty : HasEmpty mgr.server
  pub no_heartbeats : mgr.hb_thread ≡ false
  pub own_threads : mgr.excluded_threads ≡ rep_thread ∷ check_point_thread ∷ []
  pub no_clients : mgr.leader_tcp_map ≡ []
  pub no_sockets : mgr.replica_tcp_map ≡ []
  pub no_peers : mgr.leader_udp_map ≡ []
  pub no_record : mgr.cur_rec ≡ 0

abbrev pub Starts : {H : Type 0} → (mode id : ℕ) → Process (Option (EventManager H)) → Type 0
Starts mode id (alive none) = Unit
Starts {H} mode id (alive (some mgr)) = IsFresh H mode id mgr
Starts mode id (ended status) = Unit
Starts mode id faulted = Unit

initialised-Starts :
    {H : Type 0} (pthread_create : Thread → Bool) (mode id : ℕ) (mgr : EventManager H)
    (p : Process (ℕ × Option DareServer × Bool))
    → IsFreshNode mode id mgr.con_node
    → mgr.leader_tcp_map ≡ []
    → mgr.replica_tcp_map ≡ []
    → mgr.leader_udp_map ≡ []
    → mgr.cur_rec ≡ 0
    → Launches id p
    → Starts mode id (returns pthread_create (initialised pthread_create mgr p))
unfolding launch_replica_thread
initialised-Starts create mode id mgr (alive (code, server, hb)) node a b c d l = record {
  node = node;
  server = l.0;
  empty = Serves-HasEmpty id server l.0;
  no_heartbeats = l.1;
  own_threads = refl;
  no_clients = a;
  no_sockets = b;
  no_peers = c;
  no_record = d;
}
initialised-Starts create mode id mgr (ended status) node a b c d l = tt
initialised-Starts create mode id mgr faulted node a b c d l = tt

module _ {H F S : Type 0} (pthread_create : Thread → Bool) (lc : Libconfig F S) (lib : DbOpening H)
    (files : Files) (m : Machine) where
  node_starts :
      (mode id : ℕ) (log_path : Option (List ℕ)) (config : MgrConfig) (db : H)
      (started : Option NodeState)
      → NodeStarts mode id started
      → Starts mode id (elim started as (λ x. Process (Option (EventManager H))) [
        | none ↦ alive none
        | some con_node ↦ returns pthread_create (
            mgr_on_process_init pthread_create m
              (manager_of pthread_create lc lib files m log_path config db con_node))
      ])
  unfolding mgr_on_process_init
  node_starts mode id log_path config db none l = tt
  node_starts mode id log_path config db (some n) l =
      initialised-Starts pthread_create mode id
        (manager_of pthread_create lc lib files m log_path config db n) (launch_rdma m n) l refl
        refl refl refl
        (subst (λ k. Launches k (launch_rdma m n)) l.numbered (launch_rdma-Launches m n l.quiet))

  -- When `mgr_init` returns a manager, it has no connection and no record. Its node has its number; in
  -- the mode 's' it is in the view 1 that it leads itself, in any other in the view 0 under 9999; the
  -- stamps seen, to commit and committed are all 0 in the view 1. The log of the server, if there is
  -- one, has its end and its tail at its length, and no entry has a stamp or data. The thread for the heartbeats and the election is never started.
  pub mgr_init-Starts :
      (id mode : ℕ) (config_path : List ℕ) (log_path : Option (List ℕ))
      → Starts mode id (mgr_init pthread_create lc lib files m id config_path log_path (some mode))
  unfolding mgr_init
  mgr_init-Starts id mode config_path log_path =
      elim (Option-cases (config_and_db pthread_create lc lib files m id config_path)) [
        | inl gone ↦ rw (gone, mgr_init) tt
        | inr ((config, db), there) ↦
            rw (there, mgr_init)
              (node_starts mode id log_path config db
                (system_initialize lc files id config_path log_path mode)
                (system_initialize-NodeStarts lc files id config_path log_path mode))
      ]
