-- ===== src/SharedMemory/Service.antt =====
-- A leader and one replica of a group, which take turns: the leader submits a request, the replica
-- has a round, and the leader finds the acknowledgement.
use native.Mathlib.Omega.{arith}
use rdma_paxos.Prelude.{
  ℕ, suc, ◌+◌, ◌-◌, ◌^◌, ◌<◌, ◌≡◌, ◌≢◌, ◌==◌, refl, ◌∙◌, true, false, List, [], ◌∷◌, Option, none,
  some, u64, is_positive,
}
use rdma_paxos.ViewStamp.{ViewStamp, vstol, view_stamp_comp}
use rdma_paxos.ViewStamp.Order.{vstol_lem}
use rdma_paxos.Consensus.Replica.{apply_loop}
use rdma_paxos.SharedMemory.Types.{
  SharedEntry, Segments, SharedComponent, SharedRecord, SharedDb, SharedNode, store_shared,
  retrieve_shared,
}
use rdma_paxos.SharedMemory.Leader.{submitted_shared, submit_shared, await_shared}
use rdma_paxos.SharedMemory.Replica.{
  allowed_shared, accept_shared, send_records, copied_record, round_at,
}

abbrev pub stamp_of : ℕ → ViewStamp
stamp_of n = record { view_id = 1; req_id = n }

pub vstol-stamp_of : (n : ℕ) → n < 2 ^ 32 → vstol (stamp_of n) ≡ 2 ^ 32 + n
vstol-stamp_of n lt =
    omega (arith, vstol_lem (stamp_of n) (record { view_fits = omega arith; req_fits = lt }))

pub newer_stamp : (n : ℕ) → is_positive (view_stamp_comp (stamp_of (suc n)) (stamp_of n)) ≡ true
unfolding view_stamp_comp
newer_stamp n = ground arith

pub stamp_not_newer : (n : ℕ) → is_positive (view_stamp_comp (stamp_of n) (stamp_of n)) ≡ false
unfolding view_stamp_comp
stamp_not_newer n = ground arith

apply_loop-once : (e : ℕ) → e < 2 ^ 64 - 1 → apply_loop 2 e e ≡ some (e ∷ [])
unfolding apply_loop
apply_loop-once e lt = ground (arith, lt)

module _ (comp : SharedComponent) (entry : SharedEntry) where
  -- Nothing is allowed that has been committed before.
  pub allowed_shared-none :
      (n : ℕ)
      → comp.committed ≡ stamp_of n
      → entry.req_canbe_exed ≡ stamp_of n
      → allowed_shared comp entry ≡ some []
  allowed_shared-none n c e = rw (c, e, stamp_not_newer n) refl

  -- One more stamp is allowed.
  pub allowed_shared-one :
      (n : ℕ)
      → suc n < 2 ^ 32
      → comp.committed ≡ stamp_of n
      → entry.req_canbe_exed ≡ stamp_of (suc n)
      → allowed_shared comp entry ≡ some (vstol (stamp_of (suc n)) ∷ [])
  allowed_shared-one n lt c e =
      let from : u64 (vstol (stamp_of n) + 1) ≡ 2 ^ 32 + suc n =
        omega (arith, vstol-stamp_of n (omega (arith, lt))) in
      let to = vstol-stamp_of (suc n) lt in
      let fuel : 2 ^ 32 + suc n + 2 - (2 ^ 32 + suc n) ≡ 2 = omega arith in
      rw (c, e, newer_stamp n, from, to, fuel)
        (apply_loop-once (2 ^ 32 + suc n) (omega (arith, lt)))

-- What one turn takes from outside: the times, and what is in the bit map of the record of the
-- replica.
pub record SharedTurn : Type 0 where
  pub time : ℕ
  pub seen : ℕ
  pub junk : ℕ
  pub bytes : List ℕ

module _ (sdb : SharedDb) where
  open sdb use {Handle}

  pub record Group : Type 0 where
    pub lead : SharedNode sdb
    pub rep : SharedNode sdb
    pub mem : Segments
    pub last : Option SharedRecord

  -- One request: what the replica has sent to its server.
  unfoldable pub serve_shared : SharedTurn → Group → Option (Group × List SharedRecord)
  serve_shared t g = elim (submit_shared sdb t.time g.mem g.lead t.bytes) [
    | none ↦ none
    | some w ↦ elim (accept_shared sdb t.seen t.junk w.mem g.rep g.last) [
      | none ↦ none
      | some a ↦ elim (await_shared sdb w ((a.mem g.lead.comp.node_id w.at).ack ∷ [])) [
        | none ↦ none
        | some (code, lead) ↦
            some (record { lead = lead; rep = a.node; mem = a.mem; last = a.last }, a.sent)
      ]
    ]
  ]

  -- Every record can be stored.
  abbrev pub IsSharedWritable : Type 0
  IsSharedWritable = (h : Handle) (key : ℕ) (r : SharedRecord) → (sdb.put h key r).0 ≡ 0

  pub submit_shared-stored :
      (time : ℕ) (mem : Segments) (node : SharedNode sdb) (bytes : List ℕ) (h : Handle)
      → IsSharedWritable
      → node.db ≡ some h
      → submit_shared sdb time mem node bytes ≡ some (submitted_shared sdb time mem node bytes)
  unfolding submit_shared store_shared
  submit_shared-stored time mem node bytes h writable there = rw (there, writable) refl

  pub accept_shared-round_at :
      (time junk : ℕ) (mem : Segments) (node : SharedNode sdb) (last last' : Option SharedRecord)
      (indices : List ℕ) (sent : List SharedRecord)
      → ((mem node.comp.node_id node.tail).req_canbe_exed.view_id == 0) ≡ false
      → allowed_shared node.comp (mem node.comp.node_id node.tail) ≡ some indices
      → send_records sdb indices last
          (store_shared sdb node.db
            (vstol (mem node.comp.node_id node.tail).msg_vs)
            (copied_record sdb time junk (mem node.comp.node_id node.tail))).1
        ≡ some (sent, last')
      → accept_shared sdb time junk mem node last
        ≡ some (round_at sdb time junk mem node sent last')
  unfolding accept_shared
  accept_shared-round_at time junk mem node last last' indices sent view may sends =
      rw (view, may, sends) refl

  -- The record of the stamp before is still there after another one has been stored, and is sent.
  pub send_records-one :
      (h : Handle) (key other : ℕ) (r kept : SharedRecord) (last : Option SharedRecord)
      → other ≢ key
      → sdb.get h key ≡ (0, some kept)
      → send_records sdb (key ∷ []) last (store_shared sdb (some h) other r).1
        ≡ some (kept ∷ [], some kept)
  unfolding send_records store_shared retrieve_shared
  send_records-one h key other r kept last differ held =
      let got : retrieve_shared sdb (store_shared sdb (some h) other r).1 key ≡ (0, some kept) =
        sdb.get-put_other h other key r differ ∙ held in
      rw (send_records, got) refl
