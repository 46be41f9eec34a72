-- ===== src/SharedMemory/Types.antt =====
-- The state of shared_memory/src/consensus/consensus.c, and the wrapper of the database in
-- shared_memory/src/db/db-interface.c with the library as a parameter. The view stamps are those of
-- ViewStamp: shared_memory/src/util/common-structure.c has the same functions.
use rdma_paxos.Prelude.{
  ℕ, ◌+◌, ◌*◌, ◌^◌, ◌%◌, ◌≡◌, ◌≢◌, ◌==◌, if◌then◌else◌, List, [], Option, none, some, u32,
}
use rdma_paxos.ViewStamp.{View, ViewStamp}
use rdma_paxos.Log.{zero_stamp}
use rdma_paxos.Consensus.Types.{ConRole, leader, secondary, first_stamp}

abbrev pub max_shared_servers : ℕ
max_shared_servers = 10

-- LOG_SIZE, the size of a segment
abbrev pub shared_log_size : ℕ
shared_log_size = 16384 * 1024 * 4

-- `accept_ack`, of 16 bytes
pub record SharedAck : Type 0 where
  pub msg_vs : ViewStamp
  pub node_id : ℕ

-- `log_entry`, whose header is of 192 bytes and begins with the acknowledgements
pub record SharedEntry : Type 0 where
  pub ack : ℕ → SharedAck
  pub msg_vs : ViewStamp
  pub req_canbe_exed : ViewStamp
  pub node_id : ℕ
  pub data_size : ℕ
  pub bytes : List ℕ

-- Memory that is all zero.
abbrev pub zero_shared_entry : SharedEntry
zero_shared_entry = record {
  ack = λ i. record { msg_vs = zero_stamp; node_id = 0 };
  msg_vs = zero_stamp;
  req_canbe_exed = zero_stamp;
  node_id = 0;
  data_size = 0;
  bytes = [];
}

-- `log_entry_len`
unfoldable pub shared_entry_len : SharedEntry → ℕ
shared_entry_len entry = u32 (192 + entry.data_size)

-- What every process sees at `shared_memory.shm`: the entry that begins at a byte of the segment of
-- a node. Entries that overlap are not modelled.
abbrev pub Segments : Type 0
Segments = ℕ → ℕ → SharedEntry

-- `consensus_component` without the address, the log file and the database
pub record SharedComponent : Type 0 where
  pub my_role : ConRole
  pub node_id : ℕ
  pub group_size : ℕ
  pub cur_view : View
  pub highest_seen_vs : ViewStamp
  pub committed : ViewStamp

-- `init_consensus_comp`; `mode` is the first byte of the start mode, `group_size` what
-- `consensus_read_config` has read.
unfoldable pub init_shared_comp : (node_id group_size mode : ℕ) → SharedComponent
init_shared_comp node_id group_size mode =
    let leader_id = if mode == b's' then node_id % 2 ^ 32 else 0 in
    record {
      my_role = if leader_id == node_id % 2 ^ 32 then leader else secondary;
      node_id = node_id % 2 ^ 32;
      group_size = group_size;
      cur_view = record { view_id = 1; leader_id = leader_id; req_id = 0 };
      highest_seen_vs = first_stamp;
      committed = first_stamp;
    }

-- `request_record` of consensus.c
pub record SharedRecord : Type 0 where
  pub created_time : ℕ
  pub bit_map : ℕ
  pub data_size : ℕ
  pub bytes : List ℕ

-- What the wrapper relies on of an open database. A result of 0 is success.
pub record SharedDb : Type 1 where
  pub Handle : Type 0
  pub put : Handle → ℕ → SharedRecord → ℕ × Handle
  pub get : Handle → ℕ → ℕ × Option SharedRecord
  pub get-put_self :
      (db : Handle) (key : ℕ) (r : SharedRecord)
      → (put db key r).0 ≡ 0
      → get (put db key r).1 key ≡ (0, some r)
  pub get-put_other :
      (db : Handle) (key other : ℕ) (r : SharedRecord)
      → key ≢ other
      → get (put db key r).1 other ≡ get db other

module _ (sdb : SharedDb) where
  open sdb use {Handle, put, get}

  -- `store_record`, where none is a null `db_p` or `bdb_ptr`
  unfoldable pub store_shared : Option Handle → ℕ → SharedRecord → ℕ × Option Handle
  store_shared none key r = (1, none)
  store_shared (some db) key r = let res = put db key r in (res.0, some res.1)

  -- `retrieve_record`
  unfoldable pub retrieve_shared : Option Handle → ℕ → ℕ × Option SharedRecord
  retrieve_shared none key = (1, none)
  retrieve_shared (some db) key = get db key

  -- A process: its component, its own `shared_memory.tail` and its database.
  pub record SharedNode : Type 0 where
    pub comp : SharedComponent
    pub tail : ℕ
    pub db : Option Handle
