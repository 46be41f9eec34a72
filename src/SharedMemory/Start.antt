-- ===== src/SharedMemory/Start.antt =====
-- The start of a process of shared_memory/src: `consensus_read_config` of config-comp/config-comp.c,
-- `tern_init_func` and `recv` of spec_hooks.cpp. The library for the configuration is that of Config.
use rdma_paxos.Prelude.{
  ℕ, ◌%◌, ◌^◌, ◌-◌, leb, if◌then◌else◌, Bool, true, false, List, Option, none, some, ℤ, pos, negsuc,
  minus_one,
}
use rdma_paxos.Consensus.Types.{ConRole, leader, secondary}
use rdma_paxos.Config.Readers.{
  Libconfig, group_size, consensus_config, ip_address, port, db_name, or_kept, uint32_of,
}
use rdma_paxos.SharedMemory.Types.{SharedComponent, init_shared_comp}

-- What `consensus_read_config` writes of the component. The port is kept as it is read, before it is
-- put into the order of the network.
pub record SharedConfig : Type 0 where
  pub size : ℕ
  pub address : ℕ
  pub port_no : ℤ
  pub name : Option (List ℕ)

abbrev pub no_config : SharedConfig
no_config = record { size = 0; address = 0; port_no = pos 0; name = none }

-- `if (consensus_comp->my_role == SECONDARY)`
abbrev pub runs_replica : ConRole → Bool
runs_replica leader = false
runs_replica secondary = true

module _ {F S : Type 0} (lc : Libconfig F S) where
  open lc use {read_file, lookup_int, lookup, get_elem, setting_int, setting_string, inet_pton}

  unfoldable pub read_shared_node : S → SharedConfig → ℤ × SharedConfig
  read_shared_node mine c = elim (setting_string mine ip_address) [
    | none ↦ (minus_one, c)
    | some ip ↦ elim (setting_int mine port) [
      | none ↦ (minus_one, c)
      | some p ↦
          let c' : SharedConfig = record c {
            address = or_kept (inet_pton ip) c.address;
            port_no = p;
          } in
          elim (setting_string mine db_name) [
            | none ↦ (minus_one, c')
            | some name ↦ (pos 0, record c' { name = some name })
          ]
    ]
  ]

  unfoldable pub find_shared_node : F → (node_id : ℕ) → SharedConfig → ℤ × SharedConfig
  find_shared_node f node_id c = elim (lookup f consensus_config) [
    | none ↦ (minus_one, c)
    | some nodes ↦ elim (get_elem nodes node_id) [
      | none ↦ (minus_one, c)
      | some mine ↦ read_shared_node mine c
    ]
  ]

  unfoldable pub read_shared_config : List ℕ → (node_id : ℕ) → SharedConfig → ℤ × SharedConfig
  read_shared_config path node_id c = elim (read_file path) [
    | none ↦ (minus_one, c)
    | some f ↦ elim (lookup_int f group_size) [
      | none ↦ (minus_one, c)
      | some g ↦
          let c' : SharedConfig = record c { size = uint32_of g } in
          if leb (uint32_of g) node_id then (minus_one, c') else find_shared_node f node_id c'
    ]
  ]

  -- The component, its configuration, and whether the thread of a replica is started.
  pub record SharedProcess : Type 0 where
    pub comp : SharedComponent
    pub config : SharedConfig
    pub rep_thread : Bool

  -- `tern_init_func` for a node with the number that `atoi` reads, and a start mode whose first byte
  -- is `mode`. The result of reading the configuration is not looked at.
  unfoldable pub start_shared : (path : List ℕ) (node_id mode : ℕ) → SharedProcess
  start_shared path node_id mode =
      let (rc, config) = read_shared_config path (node_id % 2 ^ 32) no_config in
      let comp = init_shared_comp node_id config.size mode in
      record { comp = comp; config = config; rep_thread = runs_replica comp.my_role }

-- The size that `recv` hands to `rsm_op`, on the leader alone: its result as a `size_t`.
unfoldable pub recv_shared : SharedComponent → (ret : ℤ) → Option ℕ
recv_shared comp ret = elim comp.my_role [
  | leader ↦ some (elim ret [ pos n ↦ n | negsuc n ↦ 2 ^ 64 - 1 - n ])
  | secondary ↦ none
]
