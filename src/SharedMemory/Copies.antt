-- ===== src/SharedMemory/Copies.antt =====
-- What the loops of `rsm_op` leave: the copies in the segments, and the record after a pass.
use native.Mathlib.Omega.{arith}
use rdma_paxos.Prelude.{
  ℕ, zero, suc, ◌^◌, ◌<◌, ◌≤◌, ◌≡◌, ◌≢◌, ◌==◌, ltb, bit_or, refl, if◌then◌else◌, true, false, Bool,
  Bool-cases, inl, inr, Option, every_below, every_below-at, ==_iff, subst,
}
use rdma_paxos.ViewStamp.{ViewStamp, vstol}
use rdma_paxos.Consensus.Quorum.{reached_quorum, popcount}
use rdma_paxos.SharedMemory.Types.{
  SharedAck, SharedEntry, SharedComponent, Segments, SharedRecord, SharedDb, store_shared,
}
use rdma_paxos.SharedMemory.Replica.{replied_shared, acknowledge_shared, reply_shared}
use rdma_paxos.SharedMemory.Leader.{
  write_shared, copy_to_group, update_shared_record, acks_shared, pass_shared,
}

-- The members of the group other than the leader have the entry.
pub copy_to_group-member :
    (n self at i : ℕ) (entry : SharedEntry) (mem : Segments)
    → i < n
    → i ≢ self
    → copy_to_group n self at entry mem i at ≡ entry
unfolding copy_to_group
copy_to_group-member zero self at i entry mem lt other = elim lt [ ]
copy_to_group-member (suc n) self at i entry mem lt other = elim (Bool-cases (i == n)) [
  | inl same ↦ ground (arith, same, other)
  | inr less ↦ ground (arith, less, lt, copy_to_group-member n self at i entry mem)
]

-- The segment of the leader is left alone.
pub copy_to_group_self :
    (n self at : ℕ) (entry : SharedEntry) (mem : Segments) (at' : ℕ)
    → copy_to_group n self at entry mem self at' ≡ mem self at'
unfolding copy_to_group
copy_to_group_self zero self at entry mem at' = refl
copy_to_group_self (suc n) self at entry mem at' =
    ground (arith, copy_to_group_self n self at entry mem at')

-- Other places are left alone.
pub copy_to_group-other :
    (n self at : ℕ) (entry : SharedEntry) (mem : Segments) (i at' : ℕ)
    → at' ≢ at
    → copy_to_group n self at entry mem i at' ≡ mem i at'
unfolding copy_to_group
copy_to_group-other zero self at entry mem i at' other = refl
copy_to_group-other (suc n) self at entry mem i at' other =
    ground (arith, copy_to_group-other n self at entry mem i at' other)

-- The segments once the leader has submitted an entry, and once node `i` has acknowledged it.
module _ (size self at : ℕ) (entry : SharedEntry) (mem : Segments) where
  abbrev pub shared_out : Segments
  shared_out =
      if ltb 1 size
      then copy_to_group size self at entry (write_shared mem self at entry)
      else write_shared mem self at entry

  pub shared_out-member : (i : ℕ) → 1 < size → i < size → i ≢ self → shared_out i at ≡ entry
  shared_out-member i several lt other = ground (
    arith,
    several,
    copy_to_group-member size self at i entry (write_shared mem self at entry) lt other,
  )

  pub shared_out_self : shared_out self at ≡ entry
  shared_out_self =
      ground (arith, copy_to_group_self size self at entry (write_shared mem self at entry) at)

  pub shared_out-other : (i at' : ℕ) → at' ≢ at → shared_out i at' ≡ mem i at'
  shared_out-other i at' other = ground (
    arith,
    other,
    copy_to_group-other size self at entry (write_shared mem self at entry) i at' other,
  )

pub replied_shared-lead :
    (mem : Segments) (comp : SharedComponent) (at lead : ℕ) (entry : SharedEntry)
    → mem comp.node_id at ≡ entry
    → mem lead at ≡ entry
    → entry.node_id ≡ lead
    → comp.node_id ≢ lead
    → replied_shared mem comp at lead at
      ≡ acknowledge_shared comp.node_id (reply_shared comp entry) entry
replied_shared-lead mem comp at lead entry mine theirs of apart =
    rw (mine, of) (ground (arith, theirs, apart))

pub replied_shared-other :
    (mem : Segments) (comp : SharedComponent) (at i at' : ℕ)
    → at' ≢ at
    → replied_shared mem comp at i at' ≡ mem i at'
replied_shared-other mem comp at i at' other = ground (arith, other)

module _ (sdb : SharedDb) where
  -- The record and the database once the acknowledgement of node `i` has been counted.
  abbrev pub counted :
      ViewStamp
      → ℕ
      → SharedRecord × Option (SharedDb.Handle sdb)
      → SharedRecord × Option (SharedDb.Handle sdb)
  counted next i (r, db) =
      (update_shared_record r i, (store_shared sdb db (vstol next) (update_shared_record r i)).1)

  module _ (next : ViewStamp) (self i : ℕ) (ack : ℕ → SharedAck)
      (s : SharedRecord × Option (SharedDb.Handle sdb)) (other : i ≢ self)
      (only : (j : ℕ) → acks_shared next (ack j) ≡ i == j) (own : (ack i).node_id ≡ i) where
    pass_shared-before : (n : ℕ) → n ≤ i → pass_shared sdb n next self ack s ≡ s
    unfolding pass_shared
    pass_shared-before zero le = refl
    pass_shared-before (suc n) le =
        let not_yet : (i == n) ≡ false = ground (arith, le) in
        ground (arith, only n, not_yet, pass_shared-before n (omega (arith, le)))

    pass_shared-at : pass_shared sdb (suc i) next self ack s ≡ counted next i s
    unfolding pass_shared
    pass_shared-at =
        let elsewhere : (i == self) ≡ false = ground (arith, other) in
        let acked : acks_shared next (ack i) ≡ true = ground (arith, only i) in
        rw (elsewhere, acked, own, pass_shared-before i (omega arith)) refl

    -- A pass over slots of which only that of node `i` is an acknowledgement of the stamp.
    pub pass_shared-one : (n : ℕ) → i < n → pass_shared sdb n next self ack s ≡ counted next i s
    unfolding pass_shared
    pass_shared-one zero lt = elim lt [ ]
    pass_shared-one (suc n) lt = elim (Bool-cases (i == n)) [
      | inl same ↦
          let e : i ≡ n = (==_iff i n).0 same in
          subst (λ k. pass_shared sdb (suc k) next self ack s ≡ counted next i s) e pass_shared-at
      | inr less ↦ ground (arith, only n, less, lt, pass_shared-one n)
    ]

abbrev two_row : ℕ → ℕ → Bool
two_row i j = if i == j then true else popcount 64 (bit_or (2 ^ i) (2 ^ j)) == 2

two_table : every_below (λ i. every_below (two_row i) 10) 10 ≡ true
unfolding every_below popcount
two_table = refl

-- Two nodes are a quorum of a group of two or three.
pub two-quorum :
    (i j size : ℕ)
    → i < 10
    → j < 10
    → i ≢ j
    → size < 4
    → reached_quorum (bit_or (2 ^ i) (2 ^ j)) size ≡ true
unfolding reached_quorum
two-quorum i j size li lj other small = ground (
  arith,
  every_below-at (two_row i) 10 j
      (every_below-at (λ k. every_below (two_row k) 10) 10 i two_table li) lj,
)
