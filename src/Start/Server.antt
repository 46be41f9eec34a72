-- ===== src/Start/Server.antt =====
-- `dare_server_init` of RDMA/src/rdma/dare_server.c with what it calls in dare_ibv.c: the server
-- data, the device and the connections, and how a failure gives them back. What the allocator and
-- the library give is an argument.
use rdma_paxos.Prelude.{
  ℕ, zero, suc, ◌==◌, if◌then◌else◌, Bool, false, List, [], ◌∷◌, ◌++◌, Option, none, some, update,
  ◌&&◌, true,
}
use rdma_paxos.Log.{DareLog, log_new, max_server_count}
use rdma_paxos.Consensus.Types.{Endpoint}
use rdma_paxos.Rc.Setup.{Library, Resources, Release, rc_init, rc_free}
use rdma_paxos.Rc.Device.{Hca, Opened, dare_init_ib_device}

-- Which allocations succeed, with the devices and what the library makes on them.
pub record Machine : Type 0 where
  pub alloc_servers : Bool
  pub alloc_log : Bool
  pub alloc_ep : ℕ → Bool
  pub hcas : List Hca
  pub library : Library
  -- `pthread_create` for the heartbeats succeeds.
  pub hb_thread : Bool

-- `dare_server_input_t`
pub record Input : Type 0 where
  pub group_size : ℕ
  pub server_idx : ℕ
  pub hb_on : ℕ

-- `dare_ib_device_t`; its `udata` is set together with the endpoints.
pub record Device : Type 0 where
  pub opened : Opened
  pub resources : Resources

-- `dare_server_data_t`, with the device. A null pointer is none, or false.
pub record DareServer : Type 0 where
  pub idx : ℕ
  pub size : ℕ
  pub servers : Bool
  pub eps : ℕ → Option Endpoint
  pub log : Option DareLog
  pub device : Option Device

-- Memory that is all zero.
abbrev pub zero_endpoint : Endpoint
zero_endpoint = record { rc_connected = 0; qpn = 0; send_count = 0; raddr = 0; rkey = 0 }

abbrev pub zero_resources : Resources
zero_resources = record {
  rc_max_send_wr = 0;
  rc_cqe = 0;
  rc_pd = false;
  rc_max_inline_data = 0;
  lcl_mr = false;
  cq = λ i. false;
  qp = λ i. false;
}

unfoldable pub init_server_data : Machine → Input → ℕ × DareServer
init_server_data m input =
    let s : DareServer = record {
      idx = input.server_idx;
      size = input.group_size;
      servers = m.alloc_servers;
      eps = λ i. none;
      log = none;
      device = none;
    } in
    if m.alloc_servers
    then (if m.alloc_log then (0, record s { log = some log_new }) else (1, s))
    else (1, s)

-- The calls that give memory or a device back.
pub data Freed : Type 0 where
  freed_log freed_servers closed_device freed_device : Freed
  freed_ep : ℕ → Freed
  released : Release → Freed

-- The pointer to the log is left as it is.
unfoldable pub free_server_data : DareServer → List Freed × DareServer
free_server_data s =
    let last : List Freed = if s.servers then freed_servers ∷ [] else [] in
    (elim (s.log) [ none ↦ last | some l ↦ freed_log ∷ last ], record s { servers = false })

-- The loop of `dare_init_ib_srv_data` over the servers below `n`.
unfoldable pub init_eps : ℕ → Machine → (ℕ → Option Endpoint) → ℕ × (ℕ → Option Endpoint)
init_eps zero m eps = (0, eps)
init_eps (suc n) m eps =
    let (rc, eps') = init_eps n m eps in
    if rc == 0
    then (if m.alloc_ep n then (0, update eps' n (some zero_endpoint)) else (1, update eps' n none))
    else (1, eps')

unfoldable pub dare_init_ib_srv_data : Machine → DareServer → ℕ × DareServer
dare_init_ib_srv_data m s =
    let (rc, eps) = init_eps max_server_count m s.eps in (rc, record s { eps = eps })

unfoldable pub dare_ib_destroy_ep : ℕ → (ℕ → Option Endpoint) → List Freed × (ℕ → Option Endpoint)
dare_ib_destroy_ep idx eps = elim (eps idx) [
  | none ↦ ([], eps)
  | some e ↦ (freed_ep idx ∷ [], update eps idx none)
]

-- The loop of `dare_ib_srv_shutdown` over the servers below `n`.
unfoldable pub destroy_eps : ℕ → (ℕ → Option Endpoint) → List Freed × (ℕ → Option Endpoint)
destroy_eps zero eps = ([], eps)
destroy_eps (suc n) eps =
    let (calls, eps') = destroy_eps n eps in
    let (call, eps'') = dare_ib_destroy_ep n eps' in (calls ++ call, eps'')

abbrev pub rc_calls : List Release → List Freed
rc_calls [] = []
rc_calls (r ∷ rs) = released r ∷ rc_calls rs

-- `NULL != ep`
abbrev pub is_there : Option Endpoint → Bool
is_there none = false
is_there (some e) = true

abbrev pub has_ep : (ℕ → Option Endpoint) → ℕ → Bool
has_ep eps i = is_there (eps i)

-- `dare_ib_srv_shutdown`; none for the use of a null pointer: there is no device, through which
-- `rc_free` reads `SRV_DATA`, or a queue that it destroys was never made.
unfoldable pub dare_ib_srv_shutdown : DareServer → Option (List Freed × DareServer)
dare_ib_srv_shutdown s = elim (s.device) [
  | none ↦ none
  | some d ↦
      let (eps_freed, eps) = destroy_eps max_server_count s.eps in
      elim (rc_free max_server_count (has_ep s.eps) d.resources) [
        | none ↦ none
        | some (calls, r) ↦ some (
          rc_calls calls ++ (eps_freed ++ (closed_device ∷ freed_device ∷ [])),
          record s { eps = eps; device = none },
        )
      ]
]

-- How `dare_server_init` ends: it returns, with whether the thread for the heartbeats was started,
-- or it ends the process with a status, or a null pointer is used.
pub data Outcome : Type 0 where
  returned : ℕ → DareServer → (hb : Bool) → Outcome
  exited : ℕ → List Freed → DareServer → Outcome
  crashed : Outcome

unfoldable pub dare_server_shutdown : DareServer → Outcome
dare_server_shutdown s = elim (dare_ib_srv_shutdown s) [
  | none ↦ crashed
  | some (calls, s') ↦ let (more, s'') = free_server_data s' in exited 1 (calls ++ more) s''
]

-- `init_network_cb` once there is a device.
unfoldable pub network_on : Machine → DareServer → (hb : Bool) → Opened → Outcome
network_on m s hb opened =
    let blank : Device = record { opened = opened; resources = zero_resources } in
    let (rc1, s1) = dare_init_ib_srv_data m (record s { device = some blank }) in
    let (rc2, r) = rc_init max_server_count m.library zero_resources in
    let s2 : DareServer = record s1 { device = some (record { opened = opened; resources = r }) } in
    if rc1 == 0
    then (if rc2 == 0 then returned 0 s2 hb else dare_server_shutdown s2)
    else dare_server_shutdown s1

-- A shutdown does not return to the caller.
unfoldable pub init_network_cb : Machine → DareServer → (hb : Bool) → Outcome
init_network_cb m s hb =
    let (code, opened) = dare_init_ib_device m.hcas in
    elim opened [ none ↦ dare_server_shutdown s | some d ↦ network_on m s hb d ]

unfoldable pub dare_server_init : Machine → Input → Outcome
dare_server_init m input =
    let (rc, s) = init_server_data m input in
    if rc == 0
    then init_network_cb m s (input.hb_on == 1 && m.hb_thread)
    else returned 1 (free_server_data s).1 false
