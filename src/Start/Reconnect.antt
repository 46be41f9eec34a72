-- ===== src/Start/Reconnect.antt =====
-- `reconnect_inner` and `reconnect_inner_set_flag` of RDMA/src/ev_mgr/ev_mgr.c: a node that a
-- checkpoint has disconnected comes back. `id` is what `get_id` reads of the network interface.
use rdma_paxos.Prelude.{
  ℕ, zero, suc, ◌+◌, ◌<◌, ◌≤◌, ◌≡◌, ◌≢◌, sym, subst, ◌∙◌, if◌then◌else◌, Bool, List, Option, some,
  ℤ, pos, arith,
}
use rdma_paxos.ViewStamp.{ViewStamp}
use rdma_paxos.Log.{LogEntry, DareLog, log_size, entry_header_size}
use rdma_paxos.Db.{BerkeleyDb}
use rdma_paxos.Consensus.Leader.{place_entry}
use rdma_paxos.Consensus.Replica.{ReplicaState}
use rdma_paxos.Consensus.Silent.{
  log_new-AtStart, AllBare, Quiet, accept_rounds_bare, place_entry_inside,
}
use rdma_paxos.EvMgr.Checkpoint.{Flag, check_point_condtion}
use rdma_paxos.Start.Server.{
  Machine, Input, DareServer, Outcome, returned, exited, crashed, dare_server_init,
}
use rdma_paxos.Start.Held.{Leaves, dare_server_init-Leaves}
use rdma_paxos.Start.Manager.{Process, alive, ended, faulted, EventManager, launched, launch_rdma}
use rdma_paxos.Start.Fresh.{IsNew, Serves}

-- `reconnect_inner_set_flag`: its result, and `restore_flag`.
unfoldable pub reconnect_inner_set_flag : (restore_flag : ℕ) → ℤ × ℕ
reconnect_inner_set_flag restore_flag = (pos 0, 1)

-- The number of the node is in one place, which the manager, the node and the component point to.
unfoldable pub renumber : {H : Type 0} → ℕ → EventManager H → EventManager H
renumber id mgr = record mgr {
  config = record mgr.config { node_id = id };
  con_node = record mgr.con_node {
    config = record mgr.con_node.config { node_id = id };
    comp = record mgr.con_node.comp { node_id = id };
  };
}

-- What `reconnect_inner` makes of the result of `launch_rdma`, at whose code it does not look: the
-- manager, and `restore_flag`.
abbrev pub reconnected :
    {H : Type 0}
    → EventManager H
    → Process (ℕ × Option DareServer × Bool)
    → Process (EventManager H × ℕ)
reconnected mgr (alive (code, server, hb)) =
    alive (record mgr { server = server; hb_thread = hb }, 0)
reconnected mgr (ended status) = ended status
reconnected mgr faulted = faulted

unfoldable pub reconnect_inner :
    {H : Type 0} → Machine → (id : ℕ) → EventManager H → Process (EventManager H × ℕ)
reconnect_inner m id mgr =
    let mgr' = renumber id mgr in reconnected mgr' (launch_rdma m mgr'.con_node)

-- `check_point_condtion` as a whole, which `handle_accept_req` calls before each round. It waits as
-- long as `restore_flag` is 0, and the command to reconnect ends the wait. The flag is the one that
-- it leaves.
unfoldable pub check_point :
    {H : Type 0}
    → Flag
    → (restore_flag : ℕ) → Machine
    → (id : ℕ) → EventManager H
    → Flag × Process (EventManager H × ℕ)
check_point flag restore_flag m id mgr =
    let (flag', held) =
      check_point_condtion flag
        (record { replica_tcp_map = mgr.replica_tcp_map; cur_rec = mgr.cur_rec }) in
    (flag', if held then reconnect_inner m id mgr else alive (mgr, restore_flag))

-- A manager that has come back has a new log, if it has a server.
abbrev Returns : {H : Type 0} → ℕ → Process (EventManager H × ℕ) → Type 0
Returns id (alive (mgr, restore_flag)) = Serves id mgr.server
Returns id (ended status) = Unit
Returns id faulted = Unit

launched-Returns :
    {H : Type 0} (mgr : EventManager H) (thread : Bool) (input : Input) (o : Outcome)
    → Leaves thread input o
    → Returns input.server_idx (reconnected mgr (launched o))
launched-Returns mgr thread input (returned zero s hb) l = record {
  empty = l.empty;
  numbered = l.numbered;
}
launched-Returns mgr thread input (returned (suc code) s hb) l = tt
launched-Returns mgr thread input (exited status calls s) l = tt
launched-Returns mgr thread input crashed l = tt

reconnect_inner-Returns :
    {H : Type 0} (m : Machine) (id : ℕ) (mgr : EventManager H)
    → Returns id (reconnect_inner m id mgr)
unfolding reconnect_inner renumber launch_rdma
reconnect_inner-Returns m id mgr =
    let n = (renumber id mgr).con_node in
    let input : Input = record {
      group_size = n.config.size;
      server_idx = n.config.node_id;
      hb_on = n.hb_on;
    } in
    launched-Returns (renumber id mgr) m.hb_thread input (dare_server_init m input)
      (dare_server_init-Leaves m input)

module _ (bdb : BerkeleyDb) (ug : ViewStamp → ℕ) (get_output_hash : ℕ → ℤ → ℕ) where
  open bdb use {Handle}

  -- A node has come back with its server, and its replica thread goes on with the log of that
  -- server. A leader whose log is written up to some place inside it, with room for a header there,
  -- puts its next entry at that place and so not at the beginning. As long as nobody writes a
  -- complete entry to the beginning of the log of the node, whatever else is written, its rounds end
  -- and neither store nor apply anything.
  pub reconnect_inner-Quiet :
      (m : Machine) (id : ℕ) (mgr mgr' : EventManager Handle) (server : DareServer)
      (s : ReplicaState bdb) (memories : List (ℕ → LogEntry)) (leader_log : DareLog) (n : ℕ)
      → reconnect_inner m id mgr ≡ alive (mgr', 0)
      → mgr'.server ≡ some server
      → server.log ≡ some s.srv.log
      → AllBare memories
      → leader_log.len ≡ log_size
      → 0 < leader_log.end
      → leader_log.end + entry_header_size ≤ leader_log.len
      → Quiet bdb ug get_output_hash s memories × ((place_entry leader_log n).tail ≢ 0)
  reconnect_inner-Quiet m id mgr mgr' server s memories leader_log n up there log bare size inside
        fits =
      let new : IsNew id server =
        subst (Serves id) there (subst (Returns id) up (reconnect_inner-Returns m id mgr)) in
      (
        accept_rounds_bare bdb ug get_output_hash s memories
            (log_new-AtStart s.srv.log (ground (arith, sym log ∙ new.empty))) bare,
        place_entry_inside leader_log n size inside fits,
      )
