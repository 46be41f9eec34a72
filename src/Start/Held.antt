-- ===== src/Start/Held.antt =====
-- What is held when `dare_server_init` has ended.
use native.Mathlib.Omega.{arith}
use rdma_paxos.Prelude.{
  ℕ, zero, suc, ◌<◌, ◌≡◌, ◌==◌, refl, ◌&&◌, Bool, true, false, if◌then◌else◌, Option, none, some,
  Bool-cases, Option-cases, inl, inr,
}
use rdma_paxos.Log.{log_new, max_server_count}
use rdma_paxos.Consensus.Types.{Endpoint}
use rdma_paxos.Rc.Setup.{rc_free, rc_init, rc_init_lem, Held}
use rdma_paxos.Rc.Device.{Opened, first_device, dare_init_ib_device}
use rdma_paxos.Start.Server.{
  has_ep, Machine, Input, Device, DareServer, Outcome, returned, exited, crashed, zero_endpoint,
  zero_resources, init_server_data, free_server_data, init_eps, dare_init_ib_srv_data,
  dare_ib_destroy_ep, destroy_eps, dare_ib_srv_shutdown, dare_server_shutdown, network_on,
  init_network_cb, dare_server_init,
}

-- Something holds of every number below `n`.
abbrev pub AllBelow : (ℕ → Type 0) → ℕ → Type 0
AllBelow P zero = Unit
AllBelow P (suc n) = P n × AllBelow P n

AllBelow-intro : (P : ℕ → Type 0) (n : ℕ) → ((i : ℕ) → i < n → P i) → AllBelow P n
AllBelow-intro P zero h = tt
AllBelow-intro P (suc n) h = (h n (omega arith), AllBelow-intro P n (λ i lt. h i (omega arith)))

-- A server that is set up: an empty log, zeroed endpoints, and the queues of each on an open device.
pub record IsReady (thread : Bool) (input : Input) (s : DareServer) (hb : Bool) : Type 0 where
  pub numbered : s.idx ≡ input.server_idx
  pub counted : s.size ≡ input.group_size
  pub empty : s.log ≡ some log_new
  pub endpoints : AllBelow (λ i. s.eps i ≡ some zero_endpoint) max_server_count
  pub on_device :
      (d : Device) × (s.device ≡ some d)
      × (d.resources.lcl_mr ≡ true)
      × AllBelow (Held d.resources) max_server_count
  pub heartbeats : hb ≡ (input.hb_on == 1 && thread)

-- Nothing is held but the log, whose pointer stays.
pub record IsReleased (s : DareServer) : Type 0 where
  pub array : s.servers ≡ false
  pub device : s.device ≡ none
  pub endpoints : AllBelow (λ i. s.eps i ≡ none) max_server_count

-- What is held at each end; `thread` says whether the thread for the heartbeats can be made.
abbrev pub Leaves : (thread : Bool) → Input → Outcome → Type 0
Leaves thread input (returned zero s hb) = IsReady thread input s hb
Leaves thread input (returned (suc code) s hb) = IsReleased s × (hb ≡ false)
Leaves thread input (exited status calls s) = IsReleased s
Leaves thread input crashed = Unit

pub init_eps-made :
    (n : ℕ) (m : Machine) (eps : ℕ → Option Endpoint) (i : ℕ)
    → (init_eps n m eps).0 ≡ 0
    → i < n
    → (init_eps n m eps).1 i ≡ some zero_endpoint
unfolding init_eps
init_eps-made zero m eps i e lt = elim lt [ ]
init_eps-made (suc n) m eps i e lt = ground (arith, init_eps-made n m eps i)

dare_ib_destroy_ep_lem :
    (n : ℕ) (eps : ℕ → Option Endpoint) (i : ℕ)
    → (dare_ib_destroy_ep n eps).1 i ≡ (if n == i then none else eps i)
unfolding dare_ib_destroy_ep
dare_ib_destroy_ep_lem n eps i = elim (Option-cases (eps n)) [
  | inl gone ↦ rw (gone, dare_ib_destroy_ep) (ground (arith, gone))
  | inr (e, there) ↦ rw (there, dare_ib_destroy_ep) (ground arith)
]

destroy_eps-gone :
    (n : ℕ) (eps : ℕ → Option Endpoint) (i : ℕ) → i < n → (destroy_eps n eps).1 i ≡ none
unfolding destroy_eps
destroy_eps-gone zero eps i lt = elim lt [ ]
destroy_eps-gone (suc n) eps i lt =
    ground (arith, dare_ib_destroy_ep_lem n (destroy_eps n eps).1 i, destroy_eps-gone n eps i)

shutdown-Leaves :
    (thread : Bool) (input : Input) (s : DareServer) → Leaves thread input (dare_server_shutdown s)
unfolding dare_server_shutdown dare_ib_srv_shutdown free_server_data
shutdown-Leaves thread input s = elim (Option-cases s.device) [
  | inl gone ↦ rw (gone, dare_server_shutdown, dare_ib_srv_shutdown) tt
  | inr (d, there) ↦ elim (Option-cases (rc_free max_server_count (has_ep s.eps) d.resources)) [
    | inl null ↦ rw (there, null, dare_server_shutdown, dare_ib_srv_shutdown) tt
    | inr (out, freed) ↦
        rw (there, freed, dare_server_shutdown, dare_ib_srv_shutdown)
          (record {
            array = refl;
            device = refl;
            endpoints =
                AllBelow-intro (λ i. (destroy_eps max_server_count s.eps).1 i ≡ none)
                  max_server_count (destroy_eps-gone max_server_count s.eps);
          })
  ]
]

network_on-Leaves :
    (m : Machine) (input : Input) (s : DareServer) (d : Opened)
    → s.idx ≡ input.server_idx
    → s.size ≡ input.group_size
    → s.log ≡ some log_new
    → Leaves m.hb_thread input (network_on m s (input.hb_on == 1 && m.hb_thread) d)
unfolding network_on dare_init_ib_srv_data
network_on-Leaves m input s d numbered counted empty =
    let eps = init_eps max_server_count m s.eps in
    let queues = rc_init max_server_count m.library zero_resources in
    elim (Bool-cases (eps.0 == 0)) [
      | inl all ↦ elim (Bool-cases (queues.0 == 0)) [
        | inl made ↦
            let held =
              rc_init_lem max_server_count m.library zero_resources (ground (arith, made)) in
            rw (all, made, network_on)
              (record {
                numbered = numbered;
                counted = counted;
                empty = empty;
                endpoints =
                    AllBelow-intro (λ i. eps.1 i ≡ some zero_endpoint) max_server_count
                      (λ i lt. init_eps-made max_server_count m s.eps i (ground (arith, all)) lt);
                on_device = (
                  record { opened = d; resources = queues.1 },
                  refl,
                  held.0,
                  AllBelow-intro (Held queues.1) max_server_count held.1,
                );
                heartbeats = refl;
              })
        | inr failed ↦ rw (all, failed, network_on) (shutdown-Leaves m.hb_thread input _)
      ]
      | inr missing ↦ rw (missing, network_on) (shutdown-Leaves m.hb_thread input _)
    ]

-- The server data before the network is set up.
abbrev started : Machine → Input → DareServer
started m input = record {
  idx = input.server_idx;
  size = input.group_size;
  servers = true;
  eps = λ i. none;
  log = some log_new;
  device = none;
}

init_network_cb-Leaves :
    (m : Machine) (input : Input)
    → Leaves m.hb_thread input
        (init_network_cb m (started m input) (input.hb_on == 1 && m.hb_thread))
unfolding init_network_cb dare_init_ib_device
init_network_cb-Leaves m input = elim (Option-cases (first_device m.hcas)) [
  | inl none_there ↦
      rw (none_there, init_network_cb, dare_init_ib_device)
        (shutdown-Leaves m.hb_thread input (started m input))
  | inr (d, there) ↦
      rw (there, init_network_cb, dare_init_ib_device)
        (network_on-Leaves m input (started m input) d refl refl refl)
]

-- Nothing was made.
refused-IsReleased :
    (s : DareServer)
    → s.device ≡ none
    → ((i : ℕ) → i < max_server_count → s.eps i ≡ none)
    → IsReleased (record s { servers = false })
refused-IsReleased s no_device no_eps = record {
  array = refl;
  device = no_device;
  endpoints = AllBelow-intro (λ i. s.eps i ≡ none) max_server_count no_eps;
}

-- When `dare_server_init` returns 0, the log is new, every endpoint is zeroed and has both its
-- queues on an open device with the memory registered, and the thread for the heartbeats was
-- started just when they are on and it can be made; that it cannot be made is no error. When it
-- returns an error, without that thread, or ends the process in order, the array of servers, every
-- endpoint and the device have been given back. When it uses a null pointer, nothing is said.
pub dare_server_init-Leaves :
    (m : Machine) (input : Input) → Leaves m.hb_thread input (dare_server_init m input)
unfolding dare_server_init init_server_data free_server_data
dare_server_init-Leaves m input = elim (Bool-cases m.alloc_servers) [
  | inl array ↦ elim (Bool-cases m.alloc_log) [
    | inl space ↦
        rw (array, space, dare_server_init, init_server_data)
          (init_network_cb-Leaves (record m { alloc_servers = true; alloc_log = true }) input)
    | inr no_space ↦
        rw (array, no_space, dare_server_init, init_server_data)
          (refused-IsReleased (record (started m input) { log = none }) refl (λ i lt. refl), refl)
  ]
  | inr no_array ↦
      rw (no_array, dare_server_init, init_server_data)
        (refused-IsReleased (record (started m input) { log = none }) refl (λ i lt. refl), refl)
]
