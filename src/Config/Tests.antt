-- ===== src/Config/Tests.antt =====
-- A configuration file of a group of three.

use rdma_paxos.Prelude.{ℕ, ◌≡◌, ◌↔◌, refl, [], ◌∷◌, none, some, pos, minus_one}
use rdma_paxos.Config.Readers.{
  Libconfig, NodeConfig, consensus_read_config, find_node, read_node, uint32_of, mgr_read_config,
  find_mgr, read_mgr, read_global,
}
use rdma_paxos.Config.Accepted.{IsComplete, consensus_read_config_lem}

abbrev of_three : Libconfig ℕ ℕ
of_three = record {
  read_file = λ path. some 0;
  lookup_int = λ f k. some (pos 3);
  lookup = λ f k. some 10;
  get_elem = λ nodes i. some i;
  setting_int = λ s k. some (pos 1);
  setting_string = λ s k. some (b'x' ∷ []);
  inet_pton = λ text. some 7;
}

abbrev blank : ℕ → NodeConfig
blank id = record { node_id = id; size = 0; address = 0; sys = pos 0; stat = pos 0; name = none }

consensus_read_config_lem_example :
    ((consensus_read_config of_three [] (blank 2)).0 ≡ pos 0) ↔ IsComplete of_three [] 2
consensus_read_config_lem_example = consensus_read_config_lem of_three [] (blank 2)

third : consensus_read_config of_three [] (blank 2) ≡ (
  pos 0,
  record { node_id = 2; size = 3; address = 7; sys = pos 1; stat = pos 1; name = some (b'x' ∷ []) },
)
unfolding consensus_read_config find_node read_node uint32_of
third = refl

fourth : (consensus_read_config of_three [] (blank 3)).0 ≡ minus_one
unfolding consensus_read_config uint32_of
fourth = refl

-- The size that was read stays when the id is refused.
fourth_size : (consensus_read_config of_three [] (blank 3)).1.size ≡ 3
unfolding consensus_read_config uint32_of
fourth_size = refl

manager :
    (mgr_read_config of_three [] (record {
      node_id = 1;
      rsm_on = pos 0;
      check_on = pos 0;
      ts = pos 0;
      sys = pos 0;
      stat = pos 0;
      req = pos 0;
      address = 0;
      port_no = pos 0;
      name = none;
    })).0
    ≡ pos 0
unfolding mgr_read_config find_mgr read_mgr read_global uint32_of
manager = refl
