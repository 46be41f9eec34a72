-- ===== src/Start/Numbered.antt =====
-- The reader of the configuration keeps the number of the node.
use rdma_paxos.Prelude.{ℕ, ◌≡◌, refl, List, Bool-cases, Option-cases, inl, inr, leb}
use rdma_paxos.Config.Readers.{
  Libconfig, NodeConfig, consensus_read_config, find_node, read_node, uint32_of, ip_address,
  db_name, consensus_config, group_size,
}

module _ {F S : Type 0} (lc : Libconfig F S) where
  read_node-id : (mine : S) (n : NodeConfig) → (read_node lc mine n).1.node_id ≡ n.node_id
  unfolding read_node
  read_node-id mine n = elim (Option-cases (lc.setting_string mine ip_address)) [
    | inl gone ↦ rw (gone, read_node) refl
    | inr (ip, there) ↦ elim (Option-cases (lc.setting_string mine db_name)) [
      | inl gone ↦ rw (there, gone, read_node) refl
      | inr (name, there') ↦ rw (there, there', read_node) refl
    ]
  ]

  find_node-id : (f : F) (n : NodeConfig) → (find_node lc f n).1.node_id ≡ n.node_id
  unfolding find_node
  find_node-id f n = elim (Option-cases (lc.lookup f consensus_config)) [
    | inl gone ↦ rw (gone, find_node) refl
    | inr (nodes, there) ↦ elim (Option-cases (lc.get_elem nodes n.node_id)) [
      | inl gone ↦ rw (there, gone, find_node) refl
      | inr (mine, there') ↦ rw (there, there', find_node) (read_node-id mine n)
    ]
  ]

  pub consensus_read_config-id :
      (path : List ℕ) (n : NodeConfig) → (consensus_read_config lc path n).1.node_id ≡ n.node_id
  unfolding consensus_read_config
  consensus_read_config-id path n = elim (Option-cases (lc.read_file path)) [
    | inl gone ↦ rw (gone, consensus_read_config) refl
    | inr (f, there) ↦ elim (Option-cases (lc.lookup_int f group_size)) [
      | inl gone ↦ rw (there, gone, consensus_read_config) refl
      | inr (g, there') ↦ elim (Bool-cases (leb (uint32_of g) n.node_id)) [
        | inl big ↦ rw (there, there', big, consensus_read_config) refl
        | inr small ↦
            rw (there, there', small, consensus_read_config)
              (find_node-id f (record n { size = uint32_of g }))
      ]
    ]
  ]
