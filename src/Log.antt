-- ===== src/Log.antt =====
-- RDMA/src/include/rdma/dare_log.h, without the control data: the ring of log entries that every
-- node has and that the others write by RDMA. An entry is addressed by its byte offset in
-- `entries`; what the memory holds there is read as one entry, and entries that overlap are not
-- modelled. Sizes are those of the x86-64 layout of the structs.
use rdma_paxos.Prelude.{ℕ, ◌+◌, ◌*◌, Bool, List, [], leb, ◌==◌, if◌then◌else◌, u32, sub64, update}
use rdma_paxos.ViewStamp.{ViewStamp}

abbrev pub max_server_count : ℕ
max_server_count = 7

-- sizeof(accept_ack)
abbrev pub accept_ack_size : ℕ
accept_ack_size = 24

-- sizeof(dare_log_entry_t)
abbrev pub entry_header_size : ℕ
entry_header_size = 216

-- offsetof(dare_log_t, entries)
abbrev pub entries_offset : ℕ
entries_offset = 336

abbrev pub log_size : ℕ
log_size = 16384 * 4 * 4096

-- `accept_ack`
pub record AcceptAck : Type 0 where
  pub msg_vs : ViewStamp
  pub node_id : ℕ
  pub hash : ℕ

-- `dare_log_entry_t`; `dummy` is the byte at `log_entry_len(entry) - 1`.
pub record LogEntry : Type 0 where
  pub ack : ℕ → AcceptAck
  pub msg_vs : ViewStamp
  pub req_canbe_exed : ViewStamp
  pub node_id : ℕ
  pub data_size : ℕ
  pub type : ℕ
  pub clt_id : ViewStamp
  pub bytes : List ℕ
  pub dummy : ℕ

pub record DareLog : Type 0 where
  pub head : ℕ
  pub read : ℕ
  pub write : ℕ
  pub end : ℕ
  pub tail : ℕ
  pub len : ℕ
  pub entries : ℕ → LogEntry

abbrev pub zero_stamp : ViewStamp
zero_stamp = record { view_id = 0; req_id = 0 }

-- Memory that is all zero, read as an entry.
abbrev pub zero_entry : LogEntry
zero_entry = record {
  ack = λ i. record { msg_vs = zero_stamp; node_id = 0; hash = 0 };
  msg_vs = zero_stamp;
  req_canbe_exed = zero_stamp;
  node_id = 0;
  data_size = 0;
  type = 0;
  clt_id = zero_stamp;
  bytes = [];
  dummy = 0;
}

-- The log that `log_new` returns when it can allocate it.
unfoldable pub log_new : DareLog
log_new = record {
  head = 0;
  read = 0;
  write = 0;
  end = log_size;
  tail = log_size;
  len = log_size;
  entries = λ offset. zero_entry;
}

unfoldable pub is_log_empty : DareLog → Bool
is_log_empty log = log.end == log.len

unfoldable pub log_fit_entry_header : DareLog → ℕ → Bool
log_fit_entry_header log offset = leb entry_header_size (sub64 log.len offset)

-- The offset of the entry that the pointer returned names.
unfoldable pub log_add_new_entry : DareLog → ℕ
unfolding is_log_empty
log_add_new_entry log = if is_log_empty log then 0 else log.end

unfoldable pub log_entry_len : LogEntry → ℕ
log_entry_len entry = u32 (entry_header_size + entry.data_size)

-- The new value of `*offset`, which is the offset of the entry that the pointer returned names.
unfoldable pub log_get_entry : DareLog → ℕ → ℕ
unfolding log_fit_entry_header
log_get_entry log offset = if log_fit_entry_header log offset then offset else 0

-- A write through the pointer to the entry at `offset`.
abbrev pub write_entry : DareLog → ℕ → LogEntry → DareLog
write_entry log offset entry = record log { entries = update log.entries offset entry }
