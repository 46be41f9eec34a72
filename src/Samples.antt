-- ===== src/Samples.antt =====
-- Concrete instances for the tests: a database in memory, a list library whose checksum adds up, and
-- the nodes of a group of three.
use native.Mathlib.Omega.{arith}
use rdma_paxos.Prelude.{
  ℕ, ◌+◌, ◌*◌, ◌%◌, ◌^◌, ◌≡◌, ◌≢◌, refl, List, [], ◌∷◌, ◌++◌, Option, none, some, update,
}
use rdma_paxos.ViewStamp.{ViewStamp}
use rdma_paxos.Log.{log_new}
use rdma_paxos.Db.{BerkeleyDb, RequestRecord}
use rdma_paxos.Consensus.Types.{ConsensusComponent, ServerData, init_consensus_comp}
use rdma_paxos.Output.Library.{OutputLib}

abbrev lookup : Option RequestRecord → ℕ × Option RequestRecord
lookup none = (1, none)
lookup (some r) = (0, some r)

pub in_memory_self :
    (db : ℕ → Option RequestRecord) (key : ℕ) (r : RequestRecord)
    → lookup (update db key (some r) key) ≡ (0, some r)
in_memory_self db key r = ground arith

pub in_memory_other :
    (db : ℕ → Option RequestRecord) (key other : ℕ) (r : RequestRecord)
    → key ≢ other
    → lookup (update db key (some r) other) ≡ lookup (db other)
in_memory_other db key other r h = ground arith

abbrev pub in_memory : BerkeleyDb
in_memory = record {
  Handle = ℕ → Option RequestRecord;
  put = λ db key r. (0, update db key (some r));
  get = λ db key. lookup (db key);
  get-put_self = λ db key r same. in_memory_self db key r;
  get-put_other = in_memory_other;
}

abbrev pub node : ℕ → ConsensusComponent
node id = init_consensus_comp id 3 (record { view_id = 1; leader_id = 0; req_id = 0 })

abbrev pub server : ServerData
server = record {
  idx = 0;
  log = log_new;
  servers = λ i. record { rc_connected = 1; qpn = i; send_count = 0; raddr = 4096; rkey = i };
}

abbrev pub stamp : ℕ → ViewStamp
stamp n = record { view_id = 1; req_id = n }

abbrev sum : ℕ → List ℕ → ℕ
sum acc [] = acc
sum acc (x ∷ xs) = sum ((acc * 31 + x) % 2 ^ 64) xs

abbrev next : List ℕ → Option (ℕ × List ℕ)
next [] = none
next (x ∷ xs) = some (x, xs)

pub next_nil : (it : List ℕ) → it ≡ [] → next it ≡ none
next_nil [] e = refl
next_nil (x ∷ xs) e = cc

pub next_cons :
    (it : List ℕ) (v : ℕ) (rest : List ℕ)
    → it ≡ v ∷ rest
    → (it' : List ℕ) × (next it ≡ some (v, it')) × (it' ≡ rest)
next_cons [] v rest e = cc
next_cons (x ∷ xs) v rest e = (xs, ground arith, ground arith)

abbrev pub summing : OutputLib
summing = record {
  crc64 = sum;
  AdList = List ℕ;
  Iter = List ℕ;
  list_create = [];
  list_add_node_tail = λ l v. l ++ v ∷ [];
  list_rewind = λ l. l;
  list_next = next;
  values = λ l. l;
  remaining = λ l. l;
  values-create = refl;
  values-add = λ l v. refl;
  remaining-rewind = λ l. refl;
  next_end = next_nil;
  next_value = next_cons;
}
