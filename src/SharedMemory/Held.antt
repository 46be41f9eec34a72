-- ===== src/SharedMemory/Held.antt =====
-- A round of a replica that has stored the record of the stamp before.
use native.Mathlib.Omega.{arith}
use rdma_paxos.Prelude.{
  ℕ, zero, suc, ◌^◌, ◌<◌, ◌≡◌, ◌≢◌, refl, sym, List, [], ◌∷◌, Option, some, map,
}
use rdma_paxos.ViewStamp.{ViewStamp, vstol}
use rdma_paxos.SharedMemory.Types.{
  Segments, SharedComponent, SharedRecord, SharedDb, SharedNode, store_shared,
}
use rdma_paxos.SharedMemory.Replica.{
  accept_shared, send_records, copied_record, round_at, see_shared,
}
use rdma_paxos.SharedMemory.Service.{
  stamp_of, vstol-stamp_of, newer_stamp, stamp_not_newer, allowed_shared-none, allowed_shared-one,
  IsSharedWritable, accept_shared-round_at, send_records-one,
}

stamps_differ :
    (m n : ℕ) → m < 2 ^ 32 → n < 2 ^ 32 → m ≢ n → vstol (stamp_of m) ≢ vstol (stamp_of n)
stamps_differ m n lm ln other e = other (omega (arith, e, vstol-stamp_of m lm, vstol-stamp_of n ln))

-- The stamp that a replica has committed when the leader has committed `n`.
abbrev pub stamp_before : ℕ → ViewStamp
stamp_before zero = stamp_of 0
stamp_before (suc n) = stamp_of n

-- A node keeps its number when it sees a stamp.
pub see_shared-same :
    (comp : SharedComponent) (vs : ViewStamp) → (see_shared comp vs).node_id ≡ comp.node_id
unfolding see_shared
see_shared-same comp vs = ground arith

-- The data of records.
abbrev pub datas : List SharedRecord → List (List ℕ)
datas = map (λ r. r.bytes)

module _ (sdb : SharedDb) where
  open sdb use {Handle}

  -- The replica has the record of the last stamp, whose data it has not sent yet.
  abbrev pub Holds : ℕ → Option Handle → List (List ℕ) → Type 0
  Holds zero db pending = pending ≡ []
  Holds (suc n) db pending =
      (h : Handle) × (kept : SharedRecord) × (db ≡ some h)
      × (sdb.get h (vstol (stamp_of (suc n))) ≡ (0, some kept))
      × (pending ≡ kept.bytes ∷ [])

  -- The database stays open.
  pub store_shared_open :
      (db : Option Handle) (h : Handle) (key : ℕ) (r : SharedRecord)
      → db ≡ some h
      → (h' : Handle) × ((store_shared sdb db key r).1 ≡ some h')
  unfolding store_shared
  store_shared_open db h key r there = rw there ((sdb.put h key r).1, refl)

  -- What is stored can be read back.
  pub store_shared-Holds :
      (n : ℕ) (db : Option Handle) (h : Handle) (r : SharedRecord)
      → IsSharedWritable sdb
      → db ≡ some h
      → Holds (suc n) (store_shared sdb db (vstol (stamp_of (suc n))) r).1 (r.bytes ∷ [])
  unfolding store_shared
  store_shared-Holds n db h r writable there = rw there (
    (sdb.put h (vstol (stamp_of (suc n))) r).1,
    r,
    refl,
    sdb.get-put_self h (vstol (stamp_of (suc n))) r (writable h (vstol (stamp_of (suc n))) r),
    refl,
  )

  -- The round, at an entry of the next stamp that allows the stamp before.
  pub accept_shared-Holds :
      (n : ℕ) (pending : List (List ℕ)) (time junk : ℕ) (mem : Segments) (node : SharedNode sdb)
      (last : Option SharedRecord)
      → suc n < 2 ^ 32
      → (mem node.comp.node_id node.tail).msg_vs ≡ stamp_of (suc n)
      → (mem node.comp.node_id node.tail).req_canbe_exed ≡ stamp_of n
      → node.comp.committed ≡ stamp_before n
      → Holds n node.db pending
      → (sent : List SharedRecord) × (last' : Option SharedRecord) × (accept_shared sdb time junk
            mem node last
          ≡ some (round_at sdb time junk mem node sent last'))
        × (datas sent ≡ pending)
  unfolding send_records
  accept_shared-Holds zero pending time junk mem node last lt msg can behind holds = (
    [],
    last,
    accept_shared-round_at sdb time junk mem node last last [] [] (rw can refl)
        (allowed_shared-none node.comp (mem node.comp.node_id node.tail) 0 behind can) refl,
    sym holds,
  )
  accept_shared-Holds (suc n) pending time junk mem node last lt msg can behind holds =
      let (h, kept, there, got, all) = holds in
      let key = vstol (stamp_of (suc n)) in
      let other = stamps_differ (suc (suc n)) (suc n) lt (omega (arith, lt)) (omega arith) in
      (
        kept ∷ [],
        some kept,
        accept_shared-round_at sdb time junk mem node last (some kept) (key ∷ []) (kept ∷ [])
            (rw can refl)
            (allowed_shared-one node.comp (mem node.comp.node_id node.tail) n (omega (arith, lt))
              behind can)
            (rw (there, msg)
              (send_records-one sdb h key (vstol (stamp_of (suc (suc n))))
                (copied_record sdb time junk (mem node.comp.node_id node.tail)) kept last other
                got)),
        sym all,
      )

  -- The committed stamp after the round.
  pub round_at-committed :
      (n time junk : ℕ) (mem : Segments) (node : SharedNode sdb) (sent : List SharedRecord)
      (last : Option SharedRecord)
      → (mem node.comp.node_id node.tail).req_canbe_exed ≡ stamp_of n
      → node.comp.committed ≡ stamp_before n
      → (round_at sdb time junk mem node sent last).node.comp.committed ≡ stamp_of n
  round_at-committed zero time junk mem node sent last can behind =
      rw (can, behind, stamp_not_newer 0) refl
  round_at-committed (suc n) time junk mem node sent last can behind =
      rw (can, behind, newer_stamp n) refl
