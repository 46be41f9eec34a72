-- ===== src/EvMgr/DatagramTests.antt =====
-- Three datagrams of two clients.
use native.Mathlib.Omega.{arith}
use rdma_paxos.Prelude.{ℕ, ◌+◌, ◌≡◌, refl, false, List, [], ◌∷◌, ◌++◌, some}
use rdma_paxos.Consensus.Types.{init_consensus_comp}
use rdma_paxos.Db.{RequestRecord}
use rdma_paxos.Samples.{in_memory, summing}
use rdma_paxos.EvMgr.Maps.{hash_find, c_string}
use rdma_paxos.EvMgr.Replay.{connected, written, ReplicaMgr}
use rdma_paxos.EvMgr.Serving.{recs}
use rdma_paxos.EvMgr.Datagrams.{UdpInput}
use rdma_paxos.EvMgr.Sockets.{replay_from, to_last_socket, delivered}
use rdma_paxos.EvMgr.OneSocket.{receive_all, datagrams-replayed}
use rdma_paxos.EvMgr.Tests.{leader_mgr, puts, starts-IsIdle, replica_mgr}

abbrev from : ℕ → ℕ → UdpInput
from client byte = record { buf = byte ∷ []; sa_data = client ∷ 5 ∷ 0 ∷ [] }

abbrev three : List UdpInput
three = from 10 7 ∷ from 20 8 ∷ from 10 9 ∷ []

abbrev socket : ℕ → ℕ
socket k = 30 + k

datagrams-replayed_example :
    (rs : List RequestRecord) × (rm' : ReplicaMgr) × (recs in_memory summing
        (receive_all in_memory summing socket leader_mgr three).con_node
      ≡ [] ++ rs)
    × ((receive_all in_memory summing socket leader_mgr three).con_node.waits ≡ false)
    × (replay_from replica_mgr rs socket 0 ≡ some (rm', to_last_socket [] socket 0 0 three))
    × (delivered (to_last_socket [] socket 0 0 three) ≡ (7 ∷ []) ∷ (8 ∷ []) ∷ (9 ∷ []) ∷ [])
unfolding init_consensus_comp hash_find
datagrams-replayed_example =
    datagrams-replayed in_memory summing socket leader_mgr three replica_mgr puts starts-IsIdle refl
      refl refl (omega arith, (omega arith, (omega arith, tt)))

-- The second datagram of the first client goes to the socket of the second.
to_the_other :
    to_last_socket [] socket 0 0 three
    ≡ connected 30
      ∷ written 30 (7 ∷ [])
      ∷ connected 32
      ∷ written 32 (8 ∷ [])
      ∷ written 32 (9 ∷ [])
      ∷ []
unfolding c_string
to_the_other = refl
