-- ===== src/Consensus/Replica.antt =====
-- `handle_accept_req`: one round of its loop on a node that is not the leader. `comp->uc`, which may
-- take the node out of the group for a checkpoint, comes before the round and is not part of it.
use rdma_paxos.Prelude.{
  ℕ, zero, suc, ◌+◌, ◌-◌, ◌*◌, ◌^◌, ◌==◌, ltb, leb, if◌then◌else◌, Bool, true, false, ◌&&◌, List,
  [], ◌∷◌, ◌++◌, u32, u64, update, Option, none, some, ℤ, pos, negsuc, is_positive,
}
use rdma_paxos.ViewStamp.{ViewStamp, view_stamp_comp, vstol}
use rdma_paxos.Log.{
  AcceptAck, LogEntry, DareLog, accept_ack_size, entries_offset, log_get_entry, log_entry_len,
  write_entry,
}
use rdma_paxos.Db.{BerkeleyDb, store_record}
use rdma_paxos.Consensus.Types.{
  ConsensusComponent, ServerData, Send, p_output, dummy_end, send_to, count_send,
}
use rdma_paxos.Consensus.Leader.{record_of}

-- The first `n` bytes as a little-endian number.
unfoldable pub little_endian : ℕ → List ℕ → ℕ
little_endian zero bytes = 0
little_endian (suc n) [] = 0
little_endian (suc n) (b ∷ bytes) = b + 256 * little_endian n bytes

-- `*(long*)entry->data`
unfoldable pub long_of : List ℕ → ℤ
long_of bytes =
    let w = little_endian 8 bytes in if ltb w (2 ^ 63) then pos w else negsuc (2 ^ 64 - w - 1)

-- The acknowledgement that is written to the slot of this node, and is the payload of the write.
unfoldable pub make_reply :
    (ViewStamp → ℕ) → (ℕ → ℤ → ℕ) → ConsensusComponent → LogEntry → AcceptAck
make_reply ug get_output_hash comp entry = record {
  msg_vs = entry.msg_vs;
  node_id = comp.node_id;
  hash =
      if entry.type == p_output
      then get_output_hash (ug entry.clt_id) (long_of entry.bytes)
      else (entry.ack comp.node_id).hash;
}

-- `for (index = start; index <= end; index++)`: the indices that the callback is called with.
unfoldable pub apply_loop : ℕ → ℕ → ℕ → Option (List ℕ)
apply_loop zero index end = none
apply_loop (suc fuel) index end =
    let rest = apply_loop fuel (u64 (index + 1)) end in
    if leb index end then elim rest [ none ↦ none | some later ↦ some (index ∷ later) ] else some []

-- The indices that an entry lets this node apply, and its new committed stamp.
unfoldable pub apply_committed : ViewStamp → ViewStamp → Option (List ℕ) × ViewStamp
apply_committed committed canbe =
    let start = u64 (vstol committed + 1) in
    let end = vstol canbe in
    if is_positive (view_stamp_comp canbe committed)
    then (apply_loop (end + 2 - start) start end, canbe)
    else (some [], committed)

unfoldable pub see : ConsensusComponent → ViewStamp → ConsensusComponent
see comp vs =
    if is_positive (view_stamp_comp vs comp.highest_seen_vs)
    then record comp { highest_seen_vs = vs }
    else comp

-- The entry is there, with its last byte.
unfoldable pub is_complete : LogEntry → Bool
is_complete entry = (if entry.data_size == 0 then false else true) && entry.dummy == dummy_end

module _ (bdb : BerkeleyDb) where
  open bdb use {Handle}

  pub record ReplicaState : Type 0 where
    pub comp : ConsensusComponent
    pub srv : ServerData
    pub db : Option Handle

  -- What a round does besides changing the state: the write of the reply, and the callbacks.
  pub record Accepted : Type 0 where
    pub state : ReplicaState
    pub reply : Option (Send × AcceptAck)
    pub applied : List ℕ

  module _ (ug : ViewStamp → ℕ) (get_output_hash : ℕ → ℤ → ℕ) where
    -- The log and the endpoints after the entry at `at`.
    unfoldable pub acknowledge : ConsensusComponent → ServerData → ℕ → ServerData
    acknowledge comp srv at =
        let entry = srv.log.entries at in
        let reply = make_reply ug get_output_hash comp entry in
        let entry' : LogEntry = record entry { ack = update entry.ack comp.node_id reply } in
        let log' : DareLog = record srv.log { tail = at; end = u64 (at + log_entry_len entry) } in
        record srv {
          log = write_entry log' at entry';
          servers = update srv.servers entry.node_id (count_send (srv.servers entry.node_id));
        }

    -- What is left to do once the callbacks have returned: `indices` were applied.
    abbrev pub accept_at : ReplicaState → ℕ → ViewStamp → List ℕ → Accepted
    accept_at s at new_committed indices =
        let entry = s.srv.log.entries at in
        let offset = u32 (entries_offset + at + accept_ack_size * s.comp.node_id) in
        let stored = store_record bdb s.db (vstol entry.msg_vs) (record_of entry) in
        record {
          state = record {
            comp = record (see s.comp entry.msg_vs) { highest_committed_vs = new_committed };
            srv = acknowledge s.comp s.srv at;
            db = stored.1;
          };
          reply = some (
            send_to entry.node_id accept_ack_size offset (s.srv.servers entry.node_id),
            make_reply ug get_output_hash s.comp entry,
          );
          applied = indices;
        }

    -- The branch for a complete entry at `at`.
    unfoldable pub accept_entry : ReplicaState → ℕ → Option Accepted
    accept_entry s at =
        let applied =
          apply_committed s.comp.highest_committed_vs (s.srv.log.entries at).req_canbe_exed in
        elim (applied.0) [ none ↦ none | some indices ↦ some (accept_at s at applied.1 indices) ]

    abbrev pub idle : ReplicaState → Accepted
    idle s = record { state = s; reply = none; applied = [] }

    -- The state after `log_get_entry` has set `end`.
    abbrev pub located : ReplicaState → ReplicaState
    located s = record s {
      srv = record s.srv { log = record s.srv.log { end = log_get_entry s.srv.log s.srv.log.end } };
    }

    -- A round of the loop; `none` if a loop of it runs out of fuel.
    unfoldable pub accept_round : ReplicaState → Option Accepted
    accept_round s =
        if s.comp.cur_view.leader_id == s.comp.node_id
        then some (idle s)
        else if is_complete (s.srv.log.entries (log_get_entry s.srv.log s.srv.log.end))
        then accept_entry (located s) (log_get_entry s.srv.log s.srv.log.end)
        else some (idle (located s))

    -- The memory of the log after RDMA writes of others.
    abbrev pub overwritten : ReplicaState → (ℕ → LogEntry) → ReplicaState
    overwritten s memory = record s {
      srv = record s.srv { log = record s.srv.log { entries = memory } };
    }

    -- Rounds, before each of which the RDMA writes of others have changed the memory of the log. The
    -- result is the last state and what the callback was called with, in order.
    unfoldable pub accept_rounds :
        ReplicaState → List (ℕ → LogEntry) → Option (ReplicaState × List ℕ)
    accept_rounds s [] = some (s, [])
    accept_rounds s (memory ∷ later) = elim (accept_round (overwritten s memory)) [
      | none ↦ none
      | some a ↦ elim (accept_rounds a.state later) [
        | none ↦ none
        | some r ↦ some (r.0, a.applied ++ r.1)
      ]
    ]
