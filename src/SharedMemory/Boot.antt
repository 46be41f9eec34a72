-- ===== src/SharedMemory/Boot.antt =====
-- A leader and a replica from the start of their processes on.

use rdma_paxos.Prelude.{ℕ, ◌≤◌, ◌≡◌, List, ◌++◌, none, some, length}
use rdma_paxos.SharedMemory.Types.{SharedDb, SharedComponent, zero_shared_entry}
use rdma_paxos.SharedMemory.Service.{stamp_of, SharedTurn, Group}
use rdma_paxos.SharedMemory.Replicated.{requests, serve_all}

module _ (sdb : SharedDb) where
  open sdb use {Handle}

  -- A leader and a replica with these components, over segments that are all zero.
  abbrev pub beginning : SharedComponent → SharedComponent → Handle → Handle → Group sdb
  beginning lead rep h h' = record {
    lead = record { comp = lead; tail = 0; db = some h };
    rep = record { comp = rep; tail = 0; db = some h' };
    mem = λ node at. zero_shared_entry;
    last = none;
  }

  -- What is replicated from a group on.
  abbrev pub Replicates : List SharedTurn → Group sdb → Type 0
  Replicates turns g0 =
      (g : Group sdb) × (sent pending : List (List ℕ)) × (serve_all sdb turns g0 ≡ some (g, sent))
      × (g.lead.comp.committed ≡ stamp_of (length turns))
      × (sent ++ pending ≡ requests turns)
      × (length pending ≤ 1)
