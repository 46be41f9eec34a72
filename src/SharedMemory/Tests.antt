-- ===== src/SharedMemory/Tests.antt =====
-- Two requests in a group of three, with databases in memory.
use native.Mathlib.Omega.{arith}
use rdma_paxos.Prelude.{
  ℕ, ◌≡◌, ◌≢◌, ◌^◌, ◌-◌, ◌==◌, Bool, true, pos, negsuc, refl, List, [], ◌∷◌, Option, none, some,
  update,
}
use rdma_paxos.Config.Readers.{Libconfig}
use rdma_paxos.SharedMemory.Attach.{shared, Attached, init_shm, init_shm_lem}
use rdma_paxos.SharedMemory.Start.{recv_shared}
use rdma_paxos.SharedMemory.Types.{SharedDb, SharedRecord, init_shared_comp}
use rdma_paxos.SharedMemory.Service.{SharedTurn}

abbrev lookup : Option SharedRecord → ℕ × Option SharedRecord
lookup none = (1, none)
lookup (some r) = (0, some r)

updated :
    (db : ℕ → Option SharedRecord) (key : ℕ) (r : SharedRecord)
    → lookup (update db key (some r) key) ≡ (0, some r)
updated db key r = ground arith

not_updated :
    (db : ℕ → Option SharedRecord) (key other : ℕ) (r : SharedRecord)
    → key ≢ other
    → lookup (update db key (some r) other) ≡ lookup (db other)
not_updated db key other r h = ground arith

abbrev kept_in_memory : SharedDb
kept_in_memory = record {
  Handle = ℕ → Option SharedRecord;
  put = λ db key r. (0, update db key (some r));
  get = λ db key. lookup (db key);
  get-put_self = λ db key r same. updated db key r;
  get-put_other = not_updated;
}

abbrev turn : List ℕ → SharedTurn
turn bytes = record { time = 5; seen = 6; junk = 99; bytes = bytes }

abbrev first_two : List SharedTurn
first_two = turn (7 ∷ 8 ∷ []) ∷ turn (9 ∷ []) ∷ []

-- A configuration file of a group of three.
abbrev for_three : Libconfig ℕ ℕ
for_three = record {
  read_file = λ path. some 0;
  lookup_int = λ f k. some (pos 3);
  lookup = λ f k. none;
  get_elem = λ nodes i. none;
  setting_int = λ s k. none;
  setting_string = λ s k. none;
  inet_pton = λ text. none;
}

-- The last node is there at the second pass only.
abbrev two_passes : List (ℕ → Bool)
two_passes = (λ key. key == 5678) ∷ (λ key. true) ∷ []

init_shm_lem_example :
    (shm : Attached) × (init_shm 0 3 two_passes ≡ some shm) × (shm 2 ≡ some (shared 5679))
init_shm_lem_example = init_shm_lem 0 3 two_passes 2 (omega arith) refl (omega arith)

-- The data that cannot be read is of the greatest size.
failed_recv : recv_shared (init_shared_comp 0 3 b's') (negsuc 0) ≡ some (2 ^ 64 - 1)
unfolding recv_shared init_shared_comp
failed_recv = refl
