-- ===== src/Start/Shutdown.antt =====
-- How `dare_server_init` ends, and what is held then.
use native.Mathlib.Omega.{arith}
use rdma_paxos.Prelude.{
  ◌<◌, ap, ℕ, zero, suc, ◌≡◌, refl, ◌==◌, if◌then◌else◌, Bool, true, false, ◌&&◌, every_below, List,
  Option, none, some, Bool-cases, Option-cases, inl, inr,
}
use rdma_paxos.Log.{max_server_count}
use rdma_paxos.Consensus.Types.{Endpoint}
use rdma_paxos.Rc.Setup.{able, rc_init, rc_init-able}
use rdma_paxos.Rc.Release.{has_queues, rc_free-missing, rc_free-no_ep, rc_init-missing}
use rdma_paxos.Start.Held.{init_eps-made}
use rdma_paxos.Rc.Device.{Hca, Opened, first_device, dare_init_ib_device}
use rdma_paxos.Start.Server.{
  has_ep, is_there, Machine, Input, Device, DareServer, Outcome, returned, exited, crashed,
  zero_resources, init_server_data, init_eps, dare_init_ib_srv_data, dare_ib_srv_shutdown,
  dare_server_shutdown, network_on, init_network_cb, dare_server_init,
}

-- The ways to end: ready, with an error for the caller, with an orderly end of the process, and by
-- a null pointer.
pub data Ending : Type 0 where
  ready refused stopped broken : Ending

abbrev pub ending : Outcome → Ending
ending (returned code s hb) = if code == 0 then ready else refused
ending (exited status calls s) = stopped
ending crashed = broken

-- Some device can be set up.
abbrev pub has_device : List Hca → Bool
has_device hcas = elim (first_device hcas) [ none ↦ false | some d ↦ true ]

init_eps_able :
    (n : ℕ) (m : Machine) (eps : ℕ → Option Endpoint)
    → (init_eps n m eps).0 ≡ (if every_below m.alloc_ep n then 0 else 1)
unfolding init_eps every_below
init_eps_able zero m eps = refl
init_eps_able (suc n) m eps = ground (arith, init_eps_able n m eps)

shutdown_broken : (s : DareServer) → s.device ≡ none → ending (dare_server_shutdown s) ≡ broken
unfolding dare_server_shutdown dare_ib_srv_shutdown
shutdown_broken s e = rw (e, dare_server_shutdown, dare_ib_srv_shutdown) refl

first_out : (n : ℕ) (m : Machine) → m.alloc_ep 0 ≡ false → every_below m.alloc_ep (suc n) ≡ false
unfolding every_below
first_out zero m out = ground (arith, out)
first_out (suc n) m out = ground (arith, first_out n m out)

first_of : (m : Machine) → every_below m.alloc_ep max_server_count ≡ true → m.alloc_ep 0 ≡ true
unfolding every_below
first_of m all = ground (arith, all)

-- The endpoints are none while the first cannot be had, and the first is there otherwise.
init_eps-none :
    (n : ℕ) (m : Machine) (eps : ℕ → Option Endpoint) (i : ℕ)
    → m.alloc_ep 0 ≡ false
    → eps i ≡ none
    → (init_eps n m eps).1 i ≡ none
unfolding init_eps
init_eps-none zero m eps i out e = e
init_eps-none (suc zero) m eps i out e = ground (arith, out, e)
init_eps-none (suc (suc n)) m eps i out e =
    let before = init_eps-none (suc n) m eps i out e in
    let stuck = init_eps_able (suc n) m eps in
    let first : every_below m.alloc_ep (suc n) ≡ false = first_out n m out in
    rw (stuck, first) before

init_eps-first :
    (n : ℕ) (m : Machine) (eps : ℕ → Option Endpoint)
    → m.alloc_ep 0 ≡ true
    → 0 < n
    → is_there ((init_eps n m eps).1 0) ≡ true
unfolding init_eps
init_eps-first zero m eps has lt = elim lt [ ]
init_eps-first (suc zero) m eps has lt = ground (arith, has)
init_eps-first (suc (suc n)) m eps has lt =
    ground (arith, init_eps-first (suc n) m eps has (omega arith))

-- The shutdown with an endpoint that lacks a queue, and the shutdown without endpoints.
shutdown-missing :
    (s : DareServer) (d : Device) (i : ℕ)
    → s.device ≡ some d
    → i < max_server_count
    → is_there (s.eps i) ≡ true
    → has_queues d.resources i ≡ false
    → ending (dare_server_shutdown s) ≡ broken
unfolding dare_server_shutdown dare_ib_srv_shutdown
shutdown-missing s d i e lt has gone =
    rw
      (
        e,
        rc_free-missing max_server_count (has_ep s.eps) d.resources i lt has gone,
        dare_server_shutdown,
        dare_ib_srv_shutdown,
      )
      refl

shutdown-stopped :
    (s : DareServer) (d : Device)
    → s.device ≡ some d
    → ((i : ℕ) → s.eps i ≡ none)
    → ending (dare_server_shutdown s) ≡ stopped
unfolding dare_server_shutdown dare_ib_srv_shutdown
shutdown-stopped s d e lacks =
    let (out, freed) =
      rc_free-no_ep max_server_count (has_ep s.eps) d.resources (λ i lt. ap is_there (lacks i)) in
    rw (e, freed, dare_server_shutdown, dare_ib_srv_shutdown) refl

-- How `network_on` ends.
abbrev network_ending : Machine → Ending
network_ending m =
    if every_below m.alloc_ep max_server_count && able max_server_count m.library
    then ready
    else if m.alloc_ep 0
    then broken
    else stopped

network_on-ending :
    (m : Machine) (s : DareServer) (hb : Bool) (d : Opened)
    → ((i : ℕ) → s.eps i ≡ none)
    → ending (network_on m s hb d) ≡ network_ending m
unfolding network_on dare_init_ib_srv_data
network_on-ending m s hb d lacks =
    let eps = init_eps_able max_server_count m s.eps in
    let queues = rc_init-able max_server_count m.library zero_resources in
    elim (Bool-cases (every_below m.alloc_ep max_server_count)) [
      | inl all ↦
          let first = first_of m all in
          elim (Bool-cases (able max_server_count m.library)) [
            | inl can ↦ rw (eps, queues, all, can, network_on) refl
            | inr cannot ↦
                let failed : ((rc_init max_server_count m.library zero_resources).0 == 0) ≡ false =
                  rw (queues, cannot) refl in
                let (i, lt, gone) =
                  rc_init-missing max_server_count m.library zero_resources (omega arith) refl
                    failed in
                let there = init_eps-made max_server_count m s.eps i (rw (eps, all) refl) lt in
                rw (eps, queues, all, cannot, first, network_on)
                  (shutdown-missing _ _ i refl lt (ap is_there there) gone)
          ]
      | inr some_missing ↦ elim (Bool-cases (m.alloc_ep 0)) [
        | inl first ↦
            rw (eps, some_missing, first, network_on)
              (shutdown-missing _ _ 0 refl (omega arith)
                (init_eps-first max_server_count m s.eps first (omega arith)) refl)
        | inr out ↦
            rw (eps, some_missing, out, network_on)
              (shutdown-stopped _ _ refl
                (λ i. init_eps-none max_server_count m s.eps i out (lacks i)))
      ]
    ]

init_network_cb-ending :
    (m : Machine) (s : DareServer) (hb : Bool)
    → s.device ≡ none
    → ((i : ℕ) → s.eps i ≡ none)
    → ending (init_network_cb m s hb) ≡ (if has_device m.hcas then network_ending m else broken)
unfolding init_network_cb dare_init_ib_device
init_network_cb-ending m s hb e lacks = elim (Option-cases (first_device m.hcas)) [
  | inl none_there ↦
      rw (none_there, init_network_cb, dare_init_ib_device, has_device) (shutdown_broken s e)
  | inr (d, there) ↦
      rw (there, init_network_cb, dare_init_ib_device, has_device)
        (network_on-ending m s hb d lacks)
]

-- `dare_server_init` returns an error just when the array of servers or the log cannot be
-- allocated. Otherwise it returns 0 if a device can be set up, every endpoint can be allocated and
-- `rc_init` gets all that it asks for. In all other cases it goes to the shutdown, which uses a null
-- pointer, of the device or of a queue, but for the one where not even the first endpoint can be
-- allocated on a device that is there: only then the process ends in order, with status 1.
pub dare_server_init_lem :
    (m : Machine) (input : Input)
    → ending (dare_server_init m input) ≡ (
        if m.alloc_servers && m.alloc_log
        then (if has_device m.hcas
            then (if every_below m.alloc_ep max_server_count && able max_server_count m.library
                then ready
                else if m.alloc_ep 0
                then broken
                else stopped)
            else broken)
        else refused)
unfolding dare_server_init init_server_data
dare_server_init_lem m input = elim (Bool-cases m.alloc_servers) [
  | inl array ↦ elim (Bool-cases m.alloc_log) [
    | inl space ↦
        rw (array, space, dare_server_init, init_server_data)
          (init_network_cb-ending (record m { alloc_servers = true; alloc_log = true })
            (init_server_data (record m { alloc_servers = true; alloc_log = true }) input).1
            (input.hb_on == 1 && m.hb_thread) refl (λ i. refl))
    | inr no_space ↦ rw (array, no_space, dare_server_init, init_server_data) refl
  ]
  | inr no_array ↦ rw (no_array, dare_server_init, init_server_data) refl
]
