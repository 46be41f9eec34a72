-- ===== src/EvMgr/Check.antt =====
-- `mgr_on_check`: the server has written to a connection. Once a hash is due, the leader proposes
-- it, reads the hashes that came with the acknowledgements, and decides who is restored.
use rdma_paxos.Prelude.{
  ℕ, zero, suc, Bool, true, false, ◌==◌, if◌then◌else◌, List, [], ◌∷◌, ◌++◌, Option, none, some, ℤ,
  pos, negsuc, minus_one, is_positive, ◌/◌, ◌%◌, ◌^◌, ◌-◌,
}
use rdma_paxos.ViewStamp.{ViewStamp}
use rdma_paxos.Log.{AcceptAck}
use rdma_paxos.Db.{BerkeleyDb}
use rdma_paxos.Consensus.Types.{p_output}
use rdma_paxos.Decision.{OutputPeer, RestoreCmd, do_decision}
use rdma_paxos.Output.Library.{OutputLib}
use rdma_paxos.Output.Manager.{store_output, determine_output, get_output_hash}
use rdma_paxos.EvMgr.Maps.{hash_find}
use rdma_paxos.EvMgr.Rsm.{rsm_op}
use rdma_paxos.EvMgr.Leader.{LeaderMgr, leads}

-- One cell of the array: `hash` is the leader's own hash.
abbrev pub peer_of : (fd leader_id hash : ℕ) → ℤ → (ℕ → AcceptAck) → ℕ → OutputPeer
peer_of fd leader_id hash hash_index ack i = record {
  leader_id = leader_id;
  node_id = (ack i).node_id;
  hash = if i == leader_id then hash else (ack i).hash;
  hash_index = hash_index;
  fd = if i == leader_id then pos fd else minus_one;
}

-- The array for the nodes below `n`; the leader is one of the group.
unfoldable pub prepare_peer_array :
    ℕ → (fd leader_id hash : ℕ) → ℤ → (ℕ → AcceptAck) → List OutputPeer
prepare_peer_array zero fd leader_id hash hash_index ack = []
prepare_peer_array (suc n) fd leader_id hash hash_index ack =
    prepare_peer_array n fd leader_id hash hash_index ack
    ++ peer_of fd leader_id hash hash_index ack n ∷ []

-- The `n` bytes of a number, the lowest first.
unfoldable pub bytes_of_word : ℕ → ℕ → List ℕ
bytes_of_word zero w = []
bytes_of_word (suc n) w = w % 256 ∷ bytes_of_word n (w / 256)

-- `(char*)&hash_index` for a `long`
abbrev pub bytes_of_long : ℤ → List ℕ
bytes_of_long (pos n) = bytes_of_word 8 n
bytes_of_long (negsuc n) = bytes_of_word 8 (2 ^ 64 - suc n)

module _ (bdb : BerkeleyDb) (lib : OutputLib) where
  -- What is sent, and the manager afterwards.
  pub record Checked : Type 0 where
    pub mgr : LeaderMgr bdb lib
    pub commands : List RestoreCmd

  abbrev quiet : LeaderMgr bdb lib → Checked
  quiet m = record { mgr = m; commands = [] }

  -- The proposal of the hash at `hash_index`, when its connection has the stamp `vs`. `ack` is what
  -- the slots of the entry hold after the sleep.
  unfoldable pub propose :
      LeaderMgr bdb lib → ℕ → ℤ → (ℕ → AcceptAck) → (fp : Bool) → ViewStamp → Option Checked
  propose m fd hash_index ack fp vs =
      let (vs', at, node) = rsm_op bdb m.con_node 8 (some (bytes_of_long hash_index)) p_output vs in
      let (hash, output') = get_output_hash lib m.output fd hash_index in
      elim hash [
        | none ↦ none
        | some own ↦
            let peers =
              prepare_peer_array node.comp.group_size fd node.comp.cur_view.leader_id own hash_index
                ack in
            some (record {
              mgr = record m { con_node = node; output = output' };
              commands = (do_decision fp (some peers)).1;
            })
      ]

  -- `none` where the code uses a null pointer: the connection has no pair.
  unfoldable pub mgr_on_check :
      (internal : Bool)
      → LeaderMgr bdb lib
      → ℕ
      → List ℕ
      → (ℕ → AcceptAck)
      → (fp : Bool) → Option Checked
  mgr_on_check true m fd buf ack fp = some (quiet m)
  mgr_on_check false m fd buf ack fp =
      if m.check_output
      then elim (store_output lib m.output fd (some buf)) [
        | none ↦ none
        | some (stored, output') ↦ due (record m { output = output' }) stored
      ]
      else some (quiet m)
    where
      proposed : LeaderMgr bdb lib → ℤ → Option Checked
      proposed m' (negsuc k) = some (quiet m')
      proposed m' (pos k) = elim (hash_find ◌==◌ m'.leader_tcp_map fd) [
        | none ↦ none
        | some vs ↦ propose m' fd (pos k) ack fp vs
      ]

      due : LeaderMgr bdb lib → ℤ → Option Checked
      due m' stored =
          let (hash_index, output') = determine_output lib m'.output fd in
          if is_positive stored
          then (if leads bdb lib m'
              then proposed (record m' { output = output' }) hash_index
              else some (quiet m'))
          else some (quiet m')
