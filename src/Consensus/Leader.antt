-- ===== src/Consensus/Leader.antt =====
-- `leader_handle_submit_req`, cut where other threads or nodes may come between: the part under the
-- spin lock, the filling of the entry, the record, the RDMA writes, the count of the
-- acknowledgements and the commit.
use rdma_paxos.Prelude.{
  ℕ, zero, suc, ◌+◌, ◌^◌, ◌==◌, ltb, leb, if◌then◌else◌, Bool, ◌||◌, List, [], ◌∷◌, ◌++◌, u32, u64,
  update, Option, none, some,
}
use rdma_paxos.ViewStamp.{ViewStamp, vstol}
use rdma_paxos.Log.{
  LogEntry, DareLog, entries_offset, zero_stamp, log_add_new_entry, log_fit_entry_header,
  log_entry_len, write_entry,
}
use rdma_paxos.Db.{BerkeleyDb, RequestRecord, store_record}
use rdma_paxos.Consensus.Types.{
  ConsensusComponent, ServerData, Endpoint, Send, p_tcp_connect, p_nop, dummy_end, send_to,
  count_send,
}
use rdma_paxos.Consensus.Quorum.{reached_quorum, recheck}

unfoldable pub get_next_view_stamp : ConsensusComponent → ViewStamp
get_next_view_stamp comp = record {
  view_id = comp.highest_seen_vs.view_id;
  req_id = u32 (comp.highest_seen_vs.req_id + 1);
}

-- What the part under the lock hands to the rest of the call. `at` is where `entry` points.
pub record Reserved : Type 0 where
  pub next : ViewStamp
  pub record_no : ℕ
  pub at : ℕ
  pub offset : ℕ
  pub sends : List Send
  pub clt_id : ViewStamp

-- `i == *idx || 0 == ep->rc_connected`
abbrev pub skipped : ServerData → ℕ → Bool
skipped srv i = i == srv.idx || (srv.servers i).rc_connected == 0

-- The loops over the group: the flags come of the counters before, and the counters go up. The
-- peers are taken from 0 to `n - 1`.
unfoldable pub send_list : ℕ → ServerData → ℕ → ℕ → List Send
send_list zero srv len offset = []
send_list (suc n) srv len offset =
    let before = send_list n srv len offset in
    if skipped srv n then before else before ++ send_to n len offset (srv.servers n) ∷ []

unfoldable pub count_sends : ℕ → ServerData → ℕ → Endpoint
count_sends n srv i =
    if ltb i n
    then if skipped srv i then srv.servers i else count_send (srv.servers i)
    else srv.servers i

-- The log after the entry has been placed: `end` back to 0 if no header fits, `tail` there, the
-- size written through the pointer, and `end` past the entry.
unfoldable pub place_entry : DareLog → ℕ → DareLog
place_entry log data_size =
    let at = log_add_new_entry log in
    let start = if log_fit_entry_header log log.end then log.end else 0 in
    let entry : LogEntry = record (log.entries at) { data_size = u64 (data_size + 1) } in
    record log {
      end = u64 (start + log_entry_len entry);
      tail = start;
      entries = update log.entries at entry;
    }

-- The part under the spin lock.
unfoldable pub reserve :
    ConsensusComponent → ServerData → ℕ → ℕ → ViewStamp → Reserved × ConsensusComponent × ServerData
reserve comp srv data_size type clt_id =
    let next = get_next_view_stamp comp in
    let log' = place_entry srv.log data_size in
    let at = log_add_new_entry srv.log in
    let offset = u32 (entries_offset + log'.tail) in
    (
      record {
        next = next;
        record_no = vstol next;
        at = at;
        offset = offset;
        sends = send_list comp.group_size srv (log_entry_len (log'.entries at)) offset;
        clt_id = if type == p_tcp_connect then next else clt_id;
      },
      record comp {
        highest_seen_vs = record comp.highest_seen_vs {
          req_id = u32 (comp.highest_seen_vs.req_id + 1);
        };
      },
      record srv { log = log'; servers = count_sends comp.group_size srv },
    )

-- The entry is filled; `payload` is what `data` points to, `none` for a null pointer.
unfoldable pub fill_entry :
    ConsensusComponent → Reserved → ℕ → Option (List ℕ) → LogEntry → LogEntry
fill_entry comp r type payload entry = record entry {
  req_canbe_exed = comp.highest_committed_vs;
  bytes = elim payload [ none ↦ entry.bytes | some bs ↦ bs ];
  msg_vs = r.next;
  node_id = comp.node_id;
  type = type;
  clt_id = if type == p_nop then zero_stamp else r.clt_id;
}

-- The record that the entry is cast to.
unfoldable pub record_of : LogEntry → RequestRecord
record_of entry = record {
  data_size = entry.data_size;
  type = entry.type;
  clt_id = entry.clt_id;
  bytes = entry.bytes;
}

-- `*dummy = DUMMY_END`
unfoldable pub finish_entry : LogEntry → LogEntry
finish_entry entry = record entry { dummy = dummy_end }

-- `1 << my_id`
unfoldable pub first_votes : ConsensusComponent → ℕ
first_votes comp = 2 ^ comp.node_id

-- Everything up to the RDMA writes: the result says whether the record was stored, and then comes
-- with the writes that are posted. If it was not, the call returns without the rest.
unfoldable pub submit_entry :
    (bdb : BerkeleyDb)
    → ConsensusComponent
    → ServerData
    → Option (BerkeleyDb.Handle bdb)
    → Reserved
    → ℕ
    → Option (List ℕ)
    → Option (List Send) × ServerData × Option (BerkeleyDb.Handle bdb)
submit_entry bdb comp srv db r type payload =
    let filled = fill_entry comp r type payload (srv.log.entries r.at) in
    let stored = store_record bdb db r.record_no (record_of filled) in
    if stored.0 == 0
    then (
      some r.sends,
      record srv { log = write_entry srv.log r.at (finish_entry filled) },
      stored.1,
    )
    else (none, record srv { log = write_entry srv.log r.at filled }, stored.1)

-- The busy wait lets a call with the stamp `next` pass.
unfoldable pub may_commit : ConsensusComponent → ViewStamp → Bool
may_commit comp next = leb next.req_id (u32 (comp.highest_committed_vs.req_id + 1))

unfoldable pub commit : ConsensusComponent → ConsensusComponent
commit comp = record comp {
  highest_committed_vs = record comp.highest_committed_vs {
    req_id = u32 (comp.highest_committed_vs.req_id + 1);
  };
}

-- The passes at `recheck` over what the slots hold at each of them; `none` if the quorum is not
-- reached in any of these passes.
unfoldable pub recheck_until : ℕ → ViewStamp → List (ℕ → rdma_paxos.Log.AcceptAck) → ℕ → Option ℕ
recheck_until group_size next [] bit_map = none
recheck_until group_size next (ack ∷ later) bit_map =
    let bit_map' = recheck next ack bit_map in
    let rest = recheck_until group_size next later bit_map' in
    if reached_quorum bit_map' group_size then some bit_map' else rest
