-- ===== src/SharedMemory/Leader.antt =====
-- `rsm_op` of shared_memory/src/consensus/consensus.c, by a thread that has no other beside it.
use rdma_paxos.Prelude.{
  ℕ, zero, suc, ◌+◌, ◌^◌, ◌==◌, ltb, bit_or, if◌then◌else◌, Bool, ◌&&◌, List, [], ◌∷◌, u32, u64,
  update, length, Option, none, some,
}
use rdma_paxos.ViewStamp.{ViewStamp, vstol}
use rdma_paxos.Consensus.Quorum.{reached_quorum}
use rdma_paxos.SharedMemory.Types.{
  SharedAck, SharedEntry, Segments, SharedComponent, SharedRecord, SharedDb, SharedNode,
  shared_entry_len, store_shared, max_shared_servers,
}

-- `get_next_view_stamp`
unfoldable pub next_shared_stamp : SharedComponent → ViewStamp
next_shared_stamp comp = record {
  view_id = comp.highest_seen_vs.view_id;
  req_id = u32 (comp.highest_seen_vs.req_id + 1);
}

-- `memcpy` of an entry to the byte `at` of the segment of `node`
abbrev pub write_shared : Segments → ℕ → ℕ → SharedEntry → Segments
write_shared mem node at entry = update mem node (update (mem node) at entry)

-- The loop over the group, from 0 to `n - 1`.
unfoldable pub copy_to_group : ℕ → (self at : ℕ) → SharedEntry → Segments → Segments
copy_to_group zero self at entry mem = mem
copy_to_group (suc n) self at entry mem =
    let before = copy_to_group n self at entry mem in
    if n == self then before else write_shared before n at entry

-- `update_record`; the shift is done in `int`, so an id is below 31.
unfoldable pub update_shared_record : SharedRecord → ℕ → SharedRecord
update_shared_record r node_id = record r { bit_map = bit_or r.bit_map (2 ^ node_id) }

-- The acknowledgement is one of the entry with the stamp `next`.
unfoldable pub acks_shared : ViewStamp → SharedAck → Bool
acks_shared next a = a.msg_vs.view_id == next.view_id && a.msg_vs.req_id == next.req_id

-- `while (new_entry->msg_vs.req_id > comp->committed.req_id + 1);` and what follows: none is a wait
-- that no other thread ends.
unfoldable pub commit_shared : ViewStamp → SharedComponent → Option SharedComponent
commit_shared next comp =
    if ltb (u32 (comp.committed.req_id + 1)) next.req_id
    then none
    else some (record comp {
      committed = record comp.committed { req_id = u32 (comp.committed.req_id + 1) };
    })

-- The record that `rsm_op` makes; `time` is what `gettimeofday` gives.
abbrev pub shared_record : (time : ℕ) → SharedComponent → List ℕ → SharedRecord
shared_record time comp bytes = record {
  created_time = time;
  bit_map = 2 ^ comp.node_id;
  data_size = length bytes;
  bytes = bytes;
}

-- The entry that `rsm_op` writes, over the acknowledgements that stand in its place.
abbrev pub shared_entry : SharedComponent → ViewStamp → List ℕ → SharedEntry → SharedEntry
shared_entry comp next bytes old = record {
  ack = old.ack;
  msg_vs = next;
  req_canbe_exed = comp.committed;
  node_id = comp.node_id;
  data_size = length bytes;
  bytes = bytes;
}

module _ (sdb : SharedDb) where
  open sdb use {Handle}

  -- A call before its wait.
  pub record Waiting : Type 0 where
    pub next : ViewStamp
    pub at : ℕ
    pub kept : SharedRecord
    pub mem : Segments
    pub node : SharedNode sdb

  -- What `rsm_op` has done up to `recheck` when the record has been stored.
  abbrev pub submitted_shared : (time : ℕ) → Segments → SharedNode sdb → List ℕ → Waiting
  submitted_shared time mem node bytes =
      let next = next_shared_stamp node.comp in
      let r = shared_record time node.comp bytes in
      let self = node.comp.node_id in
      let entry = shared_entry node.comp next bytes (mem self node.tail) in
      let mem' = write_shared mem self node.tail entry in
      record {
        next = next;
        at = node.tail;
        kept = r;
        mem =
            if ltb 1 node.comp.group_size
            then copy_to_group node.comp.group_size self node.tail entry mem'
            else mem';
        node = record {
          comp = record node.comp {
            highest_seen_vs = record node.comp.highest_seen_vs {
              req_id = u32 (node.comp.highest_seen_vs.req_id + 1);
            };
          };
          tail = u64 (node.tail + shared_entry_len entry);
          db = (store_shared sdb node.db (vstol next) r).1;
        };
      }

  -- `rsm_op` up to `recheck`. If the record cannot be stored it goes on at the exit with the lock
  -- held, and reads the stamp of an entry through a pointer that is not set: this is none.
  unfoldable pub submit_shared : (time : ℕ) → Segments → SharedNode sdb → List ℕ → Option Waiting
  submit_shared time mem node bytes =
      let r = shared_record time node.comp bytes in
      let stored = store_shared sdb node.db (vstol (next_shared_stamp node.comp)) r in
      if stored.0 == 0 then some (submitted_shared time mem node bytes) else none

  -- One pass at `recheck` over the first `n` slots. The result of storing is not looked at.
  unfoldable pub pass_shared :
      ℕ
      → ViewStamp
      → (self : ℕ) → (ℕ → SharedAck)
      → SharedRecord × Option Handle
      → SharedRecord × Option Handle
  pass_shared zero next self ack s = s
  pass_shared (suc n) next self ack s =
      let before = pass_shared n next self ack s in
      let r = update_shared_record before.0 (ack n).node_id in
      if n == self
      then before
      else if acks_shared next (ack n)
      then (r, (store_shared sdb before.1 (vstol next) r).1)
      else before

  -- The wait, with what stands in the slots at each pass; none if no quorum is reached in them.
  unfoldable pub wait_shared :
      ViewStamp
      → SharedComponent
      → List (ℕ → SharedAck)
      → SharedRecord × Option Handle
      → Option (SharedRecord × Option Handle)
  wait_shared next comp [] s = none
  wait_shared next comp (ack ∷ later) s =
      let s' = pass_shared max_shared_servers next comp.node_id ack s in
      let rest = wait_shared next comp later s' in
      if reached_quorum (s'.0).bit_map comp.group_size then some s' else rest

  -- `rsm_op` after the wait, with the result 0.
  abbrev pub finish_shared : Waiting → SharedRecord × Option Handle → Option (ℕ × SharedNode sdb)
  finish_shared w s = elim (commit_shared w.next w.node.comp) [
    | none ↦ none
    | some comp ↦ some (0, record { comp = comp; tail = w.node.tail; db = s.1 })
  ]

  -- The wait and the rest.
  unfoldable pub await_shared : Waiting → List (ℕ → SharedAck) → Option (ℕ × SharedNode sdb)
  await_shared w passes =
      if ltb 1 w.node.comp.group_size
      then elim (wait_shared w.next w.node.comp passes (w.kept, w.node.db)) [
        | none ↦ none
        | some s ↦ finish_shared w s
      ]
      else finish_shared w (w.kept, w.node.db)
