-- ===== src/SharedMemory/Replica.antt =====
-- One round of the loop of `handle_accept_req` of shared_memory/src/consensus/consensus.c. The field
-- `log` that it reads does not exist; `shared_memory.log->tail` is taken to be `shared_memory.tail`.
-- The measurement of time is left out.
use rdma_paxos.Prelude.{
  ℕ, ◌+◌, ◌-◌, ◌==◌, if◌then◌else◌, List, [], ◌∷◌, u64, update, Option, none, some, is_positive,
}
use rdma_paxos.ViewStamp.{ViewStamp, vstol, view_stamp_comp}
use rdma_paxos.Consensus.Replica.{apply_loop}
use rdma_paxos.SharedMemory.Types.{
  SharedAck, SharedEntry, Segments, SharedComponent, SharedRecord, SharedDb, SharedNode,
  shared_entry_len, store_shared, retrieve_shared,
}
use rdma_paxos.SharedMemory.Leader.{write_shared}

-- The acknowledgement goes to the slot of this node, which is 16 bytes times its id behind the
-- beginning of the entry, here and in the segment of the node that the entry is of.
unfoldable pub reply_shared : SharedComponent → SharedEntry → SharedAck
reply_shared comp entry = record { msg_vs = entry.msg_vs; node_id = comp.node_id }

unfoldable pub acknowledge_shared : (self : ℕ) → SharedAck → SharedEntry → SharedEntry
acknowledge_shared self reply entry = record entry { ack = update entry.ack self reply }

unfoldable pub see_shared : SharedComponent → ViewStamp → SharedComponent
see_shared comp vs =
    if is_positive (view_stamp_comp vs comp.highest_seen_vs)
    then record comp { highest_seen_vs = vs }
    else comp

-- The indices that an entry allows; none if the loop over them does not end.
abbrev pub allowed_shared : SharedComponent → SharedEntry → Option (List ℕ)
allowed_shared comp entry =
    let start = u64 (vstol comp.committed + 1) in
    let end = vstol entry.req_canbe_exed in
    if is_positive (view_stamp_comp entry.req_canbe_exed comp.committed)
    then apply_loop (end + 2 - start) start end
    else some []

-- The segments after the acknowledgement of the entry at `at`.
abbrev pub replied_shared : Segments → SharedComponent → ℕ → Segments
replied_shared mem comp at =
    let entry = mem comp.node_id at in
    let reply = reply_shared comp entry in
    let mem' = write_shared mem comp.node_id at (acknowledge_shared comp.node_id reply entry) in
    write_shared mem' entry.node_id at
      (acknowledge_shared comp.node_id reply (mem' entry.node_id at))

module _ (sdb : SharedDb) where
  open sdb use {Handle}

  -- The records of the indices go to the server. `last` is `retrieve_data`, which a failed read leaves
  -- as it is; none is a null pointer.
  unfoldable pub send_records :
      List ℕ
      → (last : Option SharedRecord) → Option Handle
      → Option (List SharedRecord × Option SharedRecord)
  send_records [] last db = some ([], last)
  send_records (index ∷ later) last db =
      let (code, value) = retrieve_shared sdb db index in
      let read = if code == 0 then elim value [ none ↦ last | some r ↦ some r ] else last in
      elim read [
        | none ↦ none
        | some r ↦ elim (send_records later (some r) db) [
          | none ↦ none
          | some (sent, last') ↦ some (r ∷ sent, last')
        ]
      ]

  -- What a round leaves.
  pub record Round : Type 0 where
    pub mem : Segments
    pub node : SharedNode sdb
    pub sent : List SharedRecord
    pub last : Option SharedRecord

  -- The record that a round stores; `junk` is what is in its bit map, which is never set.
  abbrev pub copied_record : (time junk : ℕ) → SharedEntry → SharedRecord
  copied_record time junk entry = record {
    created_time = time;
    bit_map = junk;
    data_size = entry.data_size;
    bytes = entry.bytes;
  }

  -- A round at an entry whose stamps are there, after its records have gone to the server.
  abbrev pub round_at :
      (time junk : ℕ) → Segments → SharedNode sdb → List SharedRecord → Option SharedRecord → Round
  round_at time junk mem node sent last =
      let entry = mem node.comp.node_id node.tail in
      let newer = is_positive (view_stamp_comp entry.req_canbe_exed node.comp.committed) in
      let r = copied_record time junk entry in
      record {
        mem = replied_shared mem node.comp node.tail;
        node = record {
          comp = record (see_shared node.comp entry.msg_vs) {
            committed = if newer then entry.req_canbe_exed else node.comp.committed;
          };
          tail = u64 (node.tail + shared_entry_len entry);
          db = (store_shared sdb node.db (vstol entry.msg_vs) r).1;
        };
        sent = sent;
        last = last;
      }

  unfoldable pub accept_shared :
      (time junk : ℕ) → Segments → SharedNode sdb → Option SharedRecord → Option Round
  accept_shared time junk mem node last =
      let entry = mem node.comp.node_id node.tail in
      let r = copied_record time junk entry in
      let db = (store_shared sdb node.db (vstol entry.msg_vs) r).1 in
      if entry.req_canbe_exed.view_id == 0
      then some (record { mem = mem; node = node; sent = []; last = last })
      else elim (allowed_shared node.comp entry) [
        | none ↦ none
        | some indices ↦ elim (send_records indices last db) [
          | none ↦ none
          | some (sent, last') ↦ some (round_at time junk mem node sent last')
        ]
      ]
