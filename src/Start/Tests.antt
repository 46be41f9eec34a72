-- ===== src/Start/Tests.antt =====
-- A node that starts on a machine with one device, and ways for it to fail.
use rdma_paxos.Prelude.{
  ℕ, ◌==◌, ◌≡◌, refl, true, false, if◌then◌else◌, every_below, [], ◌∷◌, Option, none, some, pos,
}
use rdma_paxos.Log.{log_new, zero_entry}
use rdma_paxos.Db.{BerkeleyDb}
use rdma_paxos.Consensus.Types.{init_consensus_comp, p_send}
use rdma_paxos.Consensus.Replicated.{Turn}
use rdma_paxos.Consensus.Alike.{Alike}
use rdma_paxos.Config.Readers.{
  Libconfig, consensus_read_config, find_node, read_node, mgr_read_config, find_mgr, read_mgr,
  read_global, uint32_of,
}
use rdma_paxos.Rc.Setup.{
  Library, rc_init, rc_prerequisite, rc_memory_reg, create_queues, rc_cq_create, rc_qp_create,
}
use rdma_paxos.Rc.Device.{
  Hca, Port, dare_init_ib_device, first_device, init_one_device, find_port, find_pkey,
}
use rdma_paxos.Start.Database.{DbOpening, initialize_db}
use rdma_paxos.Start.Node.{build_log, start_view, initialize_node, system_initialize}
use rdma_paxos.Start.Server.{
  Machine, Input, DareServer, init_server_data, init_eps, dare_init_ib_srv_data, network_on,
  init_network_cb, dare_server_init,
}
use rdma_paxos.Start.Shutdown.{ready, stopped, broken, ending, dare_server_init_lem}
use rdma_paxos.Start.Held.{Leaves, dare_server_init-Leaves}
use rdma_paxos.Start.Manager.{
  Process, alive, EventManager, launch_rdma, launch_replica_thread, mgr_on_process_init,
  config_and_db, mgr_init,
}
use rdma_paxos.Start.Fresh.{Starts, mgr_init-Starts}
use rdma_paxos.Start.Boot.{Running, IsStarted, Site, start}
use rdma_paxos.Samples.{in_memory, stamp}

abbrev active : Port
active = record { answers = true; is_active = true; lid = 4; pkeys = some 65535 ∷ [] }

abbrev hca : Hca
hca = record { opens = true; has_attr = true; ports = active ∷ [] }

abbrev verbs : Library
verbs = record {
  ibv_alloc_pd = true;
  inline = (0, 64);
  ibv_reg_mr = true;
  ibv_create_cq = λ i. true;
  ibv_create_qp = λ i. true;
  max_qp_wr = 1024;
  max_cqe = 1024;
}

abbrev pub machine : Machine
machine = record {
  alloc_servers = true;
  alloc_log = true;
  alloc_ep = λ i. true;
  hb_thread = true;
  hcas = hca ∷ [];
  library = verbs;
}

abbrev input : Input
input = record { group_size = 3; server_idx = 1; hb_on = 0 }

dare_server_init_lem_example : ending (dare_server_init machine input) ≡ ready
unfolding every_below dare_init_ib_device first_device init_one_device find_port find_pkey
dare_server_init_lem_example = dare_server_init_lem machine input

-- Without a device the shutdown uses a null pointer.
no_device : ending (dare_server_init (record machine { hcas = [] }) input) ≡ broken
unfolding every_below first_device
no_device = dare_server_init_lem (record machine { hcas = [] }) input

-- The sixth endpoint cannot be allocated, and then the queues of the first are destroyed.
no_endpoint :
    ending
      (dare_server_init (record machine { alloc_ep = λ i. if i == 5 then false else true }) input)
    ≡ broken
unfolding every_below first_device init_one_device find_port find_pkey
no_endpoint =
    dare_server_init_lem (record machine { alloc_ep = λ i. if i == 5 then false else true }) input

dare_server_init-Leaves_example : Leaves true input (dare_server_init machine input)
dare_server_init-Leaves_example = dare_server_init-Leaves machine input

-- No endpoint can be allocated.
no_endpoints : ending (dare_server_init (record machine { alloc_ep = λ i. false }) input) ≡ stopped
unfolding every_below first_device init_one_device find_port find_pkey
no_endpoints = dare_server_init_lem (record machine { alloc_ep = λ i. false }) input

-- A database that opens empty.
abbrev opening : DbOpening (BerkeleyDb.Handle in_memory)
opening = record {
  db_create = λ flag. some (λ key. none);
  set_pagesize = λ h size. some h;
  set_cachesize = λ h size. some h;
  open_btree = λ h name. some h;
}

abbrev of_three : Libconfig ℕ ℕ
of_three = record {
  read_file = λ path. some 0;
  lookup_int = λ f k. some (pos 3);
  lookup = λ f k. some 10;
  get_elem = λ nodes i. some i;
  setting_int = λ s k. some (pos 1);
  setting_string = λ s k. some (b'x' ∷ []);
  inet_pton = λ text. some 7;
}

abbrev site : (mode id : ℕ) → Site (BerkeleyDb.Handle in_memory) ℕ ℕ
site mode id = record {
  lc = of_three;
  lib = opening;
  files = record { mkdir = true; eexist = false; fopen = λ f. true };
  machine = machine;
  pthread_create = λ t. true;
  id = id;
  mode = mode;
  config_path = [];
  log_path = none;
}

mgr_init-Starts_example : Starts b's' 0 (start (site b's' 0))
mgr_init-Starts_example =
    mgr_init-Starts (λ t. true) of_three opening (site b's' 0).files machine 0 b's' [] none

-- It comes up.
abbrev Up : (mode id : ℕ) → Type 0
Up mode id =
    (r : Running (BerkeleyDb.Handle in_memory)) × (r.mgr.db ≡ (λ key. none))
    × IsStarted (BerkeleyDb.Handle in_memory) r (start (site mode id))

up_from :
    (p : Process (Option (EventManager (BerkeleyDb.Handle in_memory))))
    (m : EventManager (BerkeleyDb.Handle in_memory)) (s : DareServer)
    → p ≡ alive (some m)
    → m.db ≡ (λ key. none)
    → m.server ≡ some s
    → s.log ≡ some log_new
    → (r : Running (BerkeleyDb.Handle in_memory)) × (r.mgr.db ≡ (λ key. none))
      × IsStarted (BerkeleyDb.Handle in_memory) r p
up_from p m s e db server log = (
  record {
    mgr = m;
    server = s;
    log = log_new;
    endpoints = λ i. record { rc_connected = 1; qpn = i; send_count = 0; raddr = 4096; rkey = i };
  },
  db,
  record { result = e; with_server = server; with_log = log },
)

leader_up : Up b's' 0
unfolding mgr_init config_and_db mgr_read_config find_mgr read_mgr read_global uint32_of
    initialize_db system_initialize consensus_read_config find_node read_node initialize_node
    start_view build_log init_consensus_comp mgr_on_process_init launch_rdma launch_replica_thread
    dare_server_init init_server_data init_network_cb network_on dare_init_ib_device first_device
    init_one_device find_port find_pkey dare_init_ib_srv_data init_eps rc_init rc_prerequisite
    rc_memory_reg create_queues rc_cq_create rc_qp_create
leader_up = up_from (start (site b's' 0)) _ _ refl refl refl refl

replica_up : Up b'r' 1
unfolding mgr_init config_and_db mgr_read_config find_mgr read_mgr read_global uint32_of
    initialize_db system_initialize consensus_read_config find_node read_node initialize_node
    start_view build_log init_consensus_comp mgr_on_process_init launch_rdma launch_replica_thread
    dare_server_init init_server_data init_network_cb network_on dare_init_ib_device first_device
    init_one_device find_port find_pkey dare_init_ib_srv_data init_eps rc_init rc_prerequisite
    rc_memory_reg create_queues rc_cq_create rc_qp_create
replica_up = up_from (start (site b'r' 1)) _ _ refl refl refl refl

abbrev request : Turn
request = record {
  committed = stamp 0;
  mine = λ offset. zero_entry;
  theirs = λ offset. zero_entry;
  type = p_send;
  clt_id = stamp 0;
  bytes = 7 ∷ 8 ∷ [];
}
