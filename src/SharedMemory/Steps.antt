-- ===== src/SharedMemory/Steps.antt =====
-- A turn keeps a leader and a replica in step.
use native.Mathlib.Omega.{arith}
use rdma_paxos.Prelude.{
  ℕ, suc, ◌+◌, ◌^◌, ◌<◌, ◌≤◌, ◌≡◌, refl, ap, ◌∙◌, sym, subst, List, [], ◌∷◌, Option, some, u32, u64,
  length,
}
use rdma_paxos.ViewStamp.{vstol}
use rdma_paxos.SharedMemory.Types.{
  SharedEntry, SharedRecord, SharedDb, store_shared, zero_shared_entry, shared_entry_len,
}
use rdma_paxos.SharedMemory.Leader.{
  Waiting, submitted_shared, await_shared, next_shared_stamp, shared_entry,
}
use rdma_paxos.SharedMemory.Replica.{
  copied_record, round_at, acknowledge_shared, reply_shared, replied_shared,
}
use rdma_paxos.SharedMemory.Copies.{
  counted, shared_out-member, shared_out_self, shared_out-other, replied_shared-lead,
  replied_shared-other,
}
use rdma_paxos.SharedMemory.Held.{
  Holds, datas, see_shared-same, store_shared_open, store_shared-Holds, accept_shared-Holds,
  round_at-committed,
}
use rdma_paxos.SharedMemory.Service.{
  stamp_of, SharedTurn, Group, serve_shared, IsSharedWritable, submit_shared-stored,
}
use rdma_paxos.SharedMemory.Turns.{slots, await_shared-one, IsGroup, AfterTurns}

module _ (sdb : SharedDb) (writable : IsSharedWritable sdb) (n : ℕ) (pending : List (List ℕ))
    (t : SharedTurn) (g : Group sdb) (inv : AfterTurns sdb n pending g) (lt : suc n < 2 ^ 32)
    (room : g.lead.tail + 192 + length t.bytes < 2 ^ 32) where
  abbrev w : Waiting sdb
  w = submitted_shared sdb t.time g.mem g.lead t.bytes

  abbrev entry : SharedEntry
  entry =
      shared_entry g.lead.comp (next_shared_stamp g.lead.comp) t.bytes
        (g.mem g.lead.comp.node_id g.lead.tail)

  next : next_shared_stamp g.lead.comp ≡ stamp_of (suc n)
  unfolding next_shared_stamp
  next = let one : u32 (n + 1) ≡ suc n = omega (arith, lt) in rw (inv.seen, one) refl

  here : w.mem g.rep.comp.node_id g.lead.tail ≡ entry
  here =
      shared_out-member g.lead.comp.group_size g.lead.comp.node_id g.lead.tail entry g.mem
        g.rep.comp.node_id inv.group.several inv.group.rep_in inv.group.apart

  there : w.mem g.lead.comp.node_id g.lead.tail ≡ entry
  there = shared_out_self g.lead.comp.group_size g.lead.comp.node_id g.lead.tail entry g.mem

  mine : w.mem g.rep.comp.node_id g.rep.tail ≡ entry
  mine = ap (w.mem g.rep.comp.node_id) inv.tails ∙ here

  msg : (w.mem g.rep.comp.node_id g.rep.tail).msg_vs ≡ stamp_of (suc n)
  msg = ap (λ e. e.msg_vs) mine ∙ next

  canbe : (w.mem g.rep.comp.node_id g.rep.tail).req_canbe_exed ≡ stamp_of n
  canbe = ap (λ e. e.req_canbe_exed) mine ∙ inv.committed

  -- The acknowledgement is in the slot of the replica.
  acknowledged :
      (replied_shared w.mem g.rep.comp g.rep.tail g.lead.comp.node_id g.lead.tail).ack
      ≡ slots (stamp_of (suc n)) g.rep.comp.node_id
  unfolding acknowledge_shared reply_shared
  acknowledged =
      let written =
        replied_shared-lead w.mem g.rep.comp g.lead.tail g.lead.comp.node_id entry here there refl
          inv.group.apart in
      let fresh = inv.empty g.lead.comp.node_id g.lead.tail (omega arith) in
      rw (inv.tails, written, next, fresh) refl

  long : u64 (g.lead.tail + shared_entry_len entry) ≡ g.lead.tail + 192 + length t.bytes
  unfolding shared_entry_len
  long = omega (arith, room)

  tail_kept :
      u64 (g.rep.tail + shared_entry_len (w.mem g.rep.comp.node_id g.rep.tail))
      ≡ u64 (g.lead.tail + shared_entry_len entry)
  tail_kept = rw (mine, inv.tails) refl

  still_empty :
      (i at : ℕ)
      → u64 (g.lead.tail + shared_entry_len entry) ≤ at
      → replied_shared w.mem g.rep.comp g.rep.tail i at ≡ zero_shared_entry
  still_empty i at le =
      let above : g.lead.tail < at = omega (arith, le, long) in
      replied_shared-other w.mem g.rep.comp g.rep.tail i at (omega (arith, above, inv.tails))
      ∙ shared_out-other g.lead.comp.group_size g.lead.comp.node_id g.lead.tail entry g.mem i at
          (omega (arith, above))
      ∙ inv.empty i at (omega (arith, above))

  -- The group after the turn.
  abbrev turned : List SharedRecord → Option SharedRecord → Group sdb
  turned sent last =
      let a = round_at sdb t.seen t.junk w.mem g.rep sent last in
      record {
        lead = record {
          comp = record w.node.comp { committed = stamp_of (suc n) };
          tail = w.node.tail;
          db = (counted sdb (stamp_of (suc n)) g.rep.comp.node_id (w.kept, w.node.db)).1;
        };
        rep = a.node;
        mem = a.mem;
        last = last;
      }

  turned-IsGroup :
      (sent : List SharedRecord) (last : Option SharedRecord) → IsGroup sdb (turned sent last)
  turned-IsGroup sent last =
      let same = see_shared-same g.rep.comp (w.mem g.rep.comp.node_id g.rep.tail).msg_vs in
      record {
        several = inv.group.several;
        few = inv.group.few;
        lead_in = inv.group.lead_in;
        rep_in = omega (arith, same, inv.group.rep_in);
        apart = λ e. inv.group.apart (sym same ∙ e);
      }

  -- The leader finds the acknowledgement.
  awaited :
      (sent : List SharedRecord) (last : Option SharedRecord)
      → await_shared sdb w
          ((replied_shared w.mem g.rep.comp g.rep.tail g.lead.comp.node_id g.lead.tail).ack ∷ [])
        ≡ some (0, (turned sent last).lead)
  awaited sent last = rw acknowledged (
      await_shared-one sdb w n g.rep.comp.node_id lt next inv.committed refl inv.group.several
        inv.group.few inv.group.lead_in inv.group.rep_in inv.group.apart)

  turned-AfterTurns :
      (sent : List SharedRecord) (last : Option SharedRecord)
      → AfterTurns sdb (suc n) (t.bytes ∷ []) (turned sent last)
  unfolding next_shared_stamp
  turned-AfterTurns sent last =
      let (hl, el) = inv.lead_open in
      let (hr, er) = inv.rep_open in
      let (hl', el') = store_shared_open sdb g.lead.db hl (vstol w.next) w.kept el in
      let kept = copied_record sdb t.seen t.junk (w.mem g.rep.comp.node_id g.rep.tail) in
      record {
        group = turned-IsGroup sent last;
        seen = next;
        committed = refl;
        behind = round_at-committed sdb n t.seen t.junk w.mem g.rep sent last canbe inv.behind;
        tails = tail_kept;
        empty = still_empty;
        lead_open =
            store_shared_open sdb w.node.db hl' (vstol (stamp_of (suc n)))
              (counted sdb (stamp_of (suc n)) g.rep.comp.node_id (w.kept, w.node.db)).0 el';
        rep_open =
            store_shared_open sdb g.rep.db hr (vstol (w.mem g.rep.comp.node_id g.rep.tail).msg_vs)
              kept er;
        holds = rw msg (
            subst
              (λ bytes.
                Holds sdb (suc n) (store_shared sdb g.rep.db (vstol (stamp_of (suc n))) kept).1
                  (bytes ∷ []))
              (ap (λ e. e.bytes) mine) (store_shared-Holds sdb n g.rep.db hr kept writable er));
      }

  -- The leader commits the request, and the replica sends what it had not sent before.
  pub serve_shared-AfterTurns :
      (g' : Group sdb) × (sent : List SharedRecord) × (serve_shared sdb t g ≡ some (g', sent))
      × (datas sent ≡ pending)
      × AfterTurns sdb (suc n) (t.bytes ∷ []) g'
      × (g'.lead.tail ≡ g.lead.tail + 192 + length t.bytes)
  unfolding serve_shared
  serve_shared-AfterTurns =
      let (h, there_is) = inv.lead_open in
      let submits = submit_shared-stored sdb t.time g.mem g.lead t.bytes h writable there_is in
      let (sent, last, accepts, all) =
        accept_shared-Holds sdb n pending t.seen t.junk w.mem g.rep g.last lt msg canbe inv.behind
          inv.holds in
      (
        turned sent last,
        sent,
        rw (serve_shared, submits, accepts, awaited sent last) refl,
        all,
        turned-AfterTurns sent last,
        long,
      )
