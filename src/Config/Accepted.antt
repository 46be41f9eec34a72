-- ===== src/Config/Accepted.antt =====
-- Which configuration files are accepted.
use native.Mathlib.Omega.{arith}
use rdma_paxos.Prelude.{
  ℕ, ◌<◌, ◌≡◌, ◌↔◌, refl, List, Option, some, ℤ, pos, Bool-cases, Option-cases, inl, inr, leb,
  false,
}
use rdma_paxos.Config.Readers.{
  Libconfig, consensus_config, group_size, ip_address, db_name, NodeConfig, uint32_of, read_node,
  find_node, consensus_read_config,
}

abbrev HasValue : {A : Type 0} → Option A → Type 0
HasValue {A} o = (a : A) × (o ≡ some a)

module _ {F S : Type 0} (lc : Libconfig F S) where
  -- The sections and settings that a node needs of a file.
  abbrev pub IsComplete : (path : List ℕ) (node_id : ℕ) → Type 0
  IsComplete path node_id =
      (f : F) × (lc.read_file path ≡ some f)
      × (g : ℤ) × (lc.lookup_int f group_size ≡ some g)
      × (node_id < uint32_of g)
      × (nodes : S) × (lc.lookup f consensus_config ≡ some nodes)
      × (mine : S) × (lc.get_elem nodes node_id ≡ some mine)
      × (ip : List ℕ) × (lc.setting_string mine ip_address ≡ some ip)
      × (name : List ℕ) × (lc.setting_string mine db_name ≡ some name)

  read_node-accepts :
      (mine : S) (n : NodeConfig)
      → (read_node lc mine n).0 ≡ pos 0
      → (ip : List ℕ) × (lc.setting_string mine ip_address ≡ some ip)
        × (name : List ℕ) × (lc.setting_string mine db_name ≡ some name)
  unfolding read_node
  read_node-accepts mine n = elim (Option-cases (lc.setting_string mine ip_address)) [
    | inl gone ↦ rw (gone, read_node) (λ e. absurd (ground (arith, e)))
    | inr (ip, there) ↦ elim (Option-cases (lc.setting_string mine db_name)) [
      | inl gone ↦ rw (there, gone, read_node) (λ e. absurd (ground (arith, e)))
      | inr (name, there') ↦ λ e. (ip, there, name, there')
    ]
  ]

  find_node-accepts :
      (f : F) (n : NodeConfig)
      → (find_node lc f n).0 ≡ pos 0
      → (nodes : S) × (lc.lookup f consensus_config ≡ some nodes)
        × (mine : S) × (lc.get_elem nodes n.node_id ≡ some mine)
        × ((read_node lc mine n).0 ≡ pos 0)
  unfolding find_node
  find_node-accepts f n = elim (Option-cases (lc.lookup f consensus_config)) [
    | inl gone ↦ rw (gone, find_node) (λ e. absurd (ground (arith, e)))
    | inr (nodes, there) ↦ elim (Option-cases (lc.get_elem nodes n.node_id)) [
      | inl gone ↦ rw (there, gone, find_node) (λ e. absurd (ground (arith, e)))
      | inr (mine, there') ↦ rw (there, there', find_node) (λ e. (nodes, refl, mine, there', e))
    ]
  ]

  accepts :
      (path : List ℕ) (n : NodeConfig)
      → (consensus_read_config lc path n).0 ≡ pos 0
      → IsComplete path n.node_id
  unfolding consensus_read_config
  accepts path n = elim (Option-cases (lc.read_file path)) [
    | inl gone ↦ rw (gone, consensus_read_config) (λ e. absurd (ground (arith, e)))
    | inr (f, there) ↦ elim (Option-cases (lc.lookup_int f group_size)) [
      | inl gone ↦ rw (there, gone, consensus_read_config) (λ e. absurd (ground (arith, e)))
      | inr (g, there') ↦ elim (Bool-cases (leb (uint32_of g) n.node_id)) [
        | inl big ↦ rw (there, there', big, consensus_read_config) (λ e. absurd (ground (arith, e)))
        | inr small ↦
            let n' : NodeConfig = record n { size = uint32_of g } in
            rw (there, there', small, consensus_read_config)
              (λ e.
                let (nodes, b, mine, c, e') = find_node-accepts f n' e in
                let (ip, d, name, h) = read_node-accepts mine n' e' in
                (f, refl, g, there', ground (arith, small), nodes, b, mine, c, ip, d, name, h))
      ]
    ]
  ]

  -- `consensus_read_config` accepts a file just when it is complete for the node, whose id is below
  -- the size of the group in the file.
  pub consensus_read_config_lem :
      (path : List ℕ) (n : NodeConfig)
      → ((consensus_read_config lc path n).0 ≡ pos 0) ↔ IsComplete path n.node_id
  unfolding consensus_read_config find_node read_node
  consensus_read_config_lem path n = (
    accepts path n,
    λ (f, a, g, b, lt, nodes, c, mine, d, ip, h, name, k).
        let small : leb (uint32_of g) n.node_id ≡ false = ground (arith, lt) in
        rw (a, b, small, c, d, h, k, consensus_read_config, find_node, read_node) refl,
  )
