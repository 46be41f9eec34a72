-- ===== src/Config/Readers.antt =====
-- `consensus_read_config` and `mgr_read_config`. The library is a parameter: a lookup has a value if
-- the setting is there and of the type that is asked for.
use rdma_paxos.Prelude.{
  ℕ, suc, ◌-◌, ◌^◌, leb, if◌then◌else◌, List, Option, none, some, ℤ, pos, negsuc, minus_one, ◌%◌,
}

-- The names of the settings.
pub data Key : Type 0 where
  group_size consensus_config mgr_global_config mgr_config rsm check_output ip_address port sys_log
        stat_log time_stamp_log req_log db_name :
      Key

-- `F` is an open file, `S` a setting in it. Texts are lists of bytes.
pub record Libconfig (F S : Type 0) : Type 0 where
  pub read_file : List ℕ → Option F
  pub lookup_int : F → Key → Option ℤ
  pub lookup : F → Key → Option S
  pub get_elem : S → ℕ → Option S
  pub setting_int : S → Key → Option ℤ
  pub setting_string : S → Key → Option (List ℕ)
  pub inet_pton : List ℕ → Option ℕ

-- `(int*)&group_size` for a `uint32_t`
unfoldable pub uint32_of : ℤ → ℕ
uint32_of (pos n) = n % 2 ^ 32
uint32_of (negsuc n) = 2 ^ 32 - suc n % 2 ^ 32

-- A lookup into a variable, which keeps its value if there is no such setting.
abbrev pub or_kept : {A : Type 0} → Option A → A → A
or_kept none old = old
or_kept (some new) old = new

-- What `consensus_read_config` writes of `node`.
pub record NodeConfig : Type 0 where
  pub node_id : ℕ
  pub size : ℕ
  pub address : ℕ
  pub sys : ℤ
  pub stat : ℤ
  pub name : Option (List ℕ)

-- What `mgr_read_config` writes of `event_manager`.
pub record MgrConfig : Type 0 where
  pub node_id : ℕ
  pub rsm_on : ℤ
  pub check_on : ℤ
  pub ts : ℤ
  pub sys : ℤ
  pub stat : ℤ
  pub req : ℤ
  pub address : ℕ
  pub port_no : ℤ
  pub name : Option (List ℕ)

module _ {F S : Type 0} (lc : Libconfig F S) where
  open lc use {read_file, lookup_int, lookup, get_elem, setting_int, setting_string, inet_pton}

  unfoldable pub read_node : S → NodeConfig → ℤ × NodeConfig
  read_node mine n = elim (setting_string mine ip_address) [
    | none ↦ (minus_one, n)
    | some ip ↦
        let n' : NodeConfig = record n {
          address = or_kept (inet_pton ip) n.address;
          sys = or_kept (setting_int mine sys_log) n.sys;
          stat = or_kept (setting_int mine stat_log) n.stat;
        } in
        elim (setting_string mine db_name) [
          | none ↦ (minus_one, n')
          | some name ↦ (pos 0, record n' { name = some name })
        ]
  ]

  unfoldable pub find_node : F → NodeConfig → ℤ × NodeConfig
  find_node f n = elim (lookup f consensus_config) [
    | none ↦ (minus_one, n)
    | some nodes ↦ elim (get_elem nodes n.node_id) [
      | none ↦ (minus_one, n)
      | some mine ↦ read_node mine n
    ]
  ]

  unfoldable pub consensus_read_config : List ℕ → NodeConfig → ℤ × NodeConfig
  consensus_read_config path n = elim (read_file path) [
    | none ↦ (minus_one, n)
    | some f ↦ elim (lookup_int f group_size) [
      | none ↦ (minus_one, n)
      | some g ↦
          let n' : NodeConfig = record n { size = uint32_of g } in
          if leb (uint32_of g) n.node_id then (minus_one, n') else find_node f n'
    ]
  ]

  unfoldable pub read_mgr : S → MgrConfig → ℤ × MgrConfig
  read_mgr mine m =
      let logs : MgrConfig = record m {
        ts = or_kept (setting_int mine time_stamp_log) m.ts;
        sys = or_kept (setting_int mine sys_log) m.sys;
        stat = or_kept (setting_int mine stat_log) m.stat;
        req = or_kept (setting_int mine req_log) m.req;
      } in
      elim (setting_string mine ip_address) [
        | none ↦ (minus_one, logs)
        | some ip ↦ elim (setting_int mine port) [
          | none ↦ (minus_one, logs)
          | some p ↦
              let addressed : MgrConfig = record logs {
                address = or_kept (inet_pton ip) m.address;
                port_no = p;
              } in
              elim (setting_string mine db_name) [
                | none ↦ (minus_one, addressed)
                | some name ↦ (pos 0, record addressed { name = some name })
              ]
        ]
      ]

  -- The section `mgr_global_config`, which may be absent.
  unfoldable pub read_global : Option S → MgrConfig → MgrConfig
  read_global none m = m
  read_global (some global) m = record m {
    rsm_on = or_kept (setting_int global rsm) m.rsm_on;
    check_on = or_kept (setting_int global check_output) m.check_on;
  }

  unfoldable pub find_mgr : F → MgrConfig → ℤ × MgrConfig
  find_mgr f m = elim (lookup f mgr_config) [
    | none ↦ (minus_one, m)
    | some nodes ↦ elim (get_elem nodes m.node_id) [
      | none ↦ (minus_one, m)
      | some mine ↦ read_mgr mine m
    ]
  ]

  unfoldable pub mgr_read_config : List ℕ → MgrConfig → ℤ × MgrConfig
  mgr_read_config path m = elim (read_file path) [
    | none ↦ (minus_one, m)
    | some f ↦ elim (lookup_int f group_size) [
      | none ↦ (minus_one, m)
      | some g ↦
          if leb (uint32_of g) m.node_id
          then (minus_one, m)
          else find_mgr f (read_global (lookup f mgr_global_config) m)
    ]
  ]
