-- ===== src/Output/Tests.antt =====
-- A library whose lists are lists and whose `crc64` adds up, and the theorems over it.
use rdma_paxos.Prelude.{ℕ, ◌≡◌, [], ◌∷◌, some, refl, arith, pos}
use rdma_paxos.Samples.{summing}
use rdma_paxos.Output.Handler.{zeros}
use rdma_paxos.Output.Manager.{OutputManager, init_output_mgr, store_output, get_output_hash}
use rdma_paxos.Output.Calls.{init-IsManager, Stored, store_output_lem, store_all}
use rdma_paxos.Output.Agree.{hashes_agree}

abbrev fresh : OutputManager summing
fresh = init_output_mgr summing

store_output_lem_example :
    (n : ℕ) × (after : OutputManager summing) × (store_output summing fresh 5 (some (7 ∷ 8 ∷ []))
      ≡ some (pos n, after))
    × Stored summing fresh 5 (7 ∷ 8 ∷ []) n after
store_output_lem_example =
    store_output_lem summing fresh 5 (7 ∷ 8 ∷ []) (init-IsManager summing) (omega arith)
      (omega arith)

-- A block of 1024 bytes, written at once and in two writes.
hashes_agree_example :
    (after after' : OutputManager summing) × (store_all summing fresh 5 (zeros 1024 ∷ [])
      ≡ some after)
    × (store_all summing fresh 9 (zeros 24 ∷ zeros 1000 ∷ []) ≡ some after')
    × ((get_output_hash summing after 5 (pos 0)).0 ≡ (get_output_hash summing after' 9 (pos 0)).0)
hashes_agree_example =
    hashes_agree summing 5 9 0 (zeros 1024 ∷ []) (zeros 24 ∷ zeros 1000 ∷ []) (omega arith)
      (omega arith) refl (omega arith, tt) (omega arith, (omega arith, tt))
