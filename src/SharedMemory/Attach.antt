-- ===== src/SharedMemory/Attach.antt =====
-- `init_shm` of shared_memory/src/shm/shm.c: a process makes its own segment and then tries, in the
-- order of the nodes and from the first again after each failure, to find those of the others.
use native.Mathlib.Omega.{arith}
use rdma_paxos.Prelude.{
  ℕ, zero, suc, ◌<◌, ◌≡◌, ◌≢◌, ◌==◌, refl, ◌∙◌, if◌then◌else◌, Bool, true, false, Bool-cases, inl,
  inr, ◌&&◌, ◌||◌, not, List, [], ◌∷◌, Option, none, some, update, ltb, sym, ◌+◌,
}

-- `key[i]` in a group of at least three, where all but three stay 0
abbrev pub shm_key : ℕ → ℕ
shm_key zero = 5677
shm_key (suc zero) = 5678
shm_key (suc (suc zero)) = 5679
shm_key (suc (suc (suc i))) = 0

-- The segment of a key, or one that `shmget` makes anew for the key 0, which is IPC_PRIVATE, and which
-- no other process has.
pub data Segment : Type 0 where
  shared : (key : ℕ) → Segment
  private_segment : Segment

abbrev pub segment_of : ℕ → Segment
segment_of i = if shm_key i == 0 then private_segment else shared (shm_key i)

-- What `shared_memory.shm` points to, if something has been attached.
abbrev pub Attached : Type 0
Attached = ℕ → Option Segment

-- `shmget` gives a segment for the node `n`.
abbrev pub can_attach : (found : ℕ → Bool) → ℕ → Bool
can_attach found n = shm_key n == 0 || found (shm_key n)

-- The first `n` rounds of the loop; `found` says for which keys there is a
-- segment. It ends at
-- the first failure.
unfoldable pub attach_loop : ℕ → (self : ℕ) → (found : ℕ → Bool) → Attached → Bool × Attached
attach_loop zero self found shm = (true, shm)
attach_loop (suc n) self found shm =
    let (ok, shm') = attach_loop n self found shm in
    if not ok
    then (false, shm')
    else if n == self
    then (true, shm')
    else if can_attach found n
    then (true, update shm' n (some (segment_of n)))
    else (false, shm')

-- Passes of the loop, each with what is there at its time; none if they all fail.
unfoldable pub attach_passes : (size self : ℕ) → List (ℕ → Bool) → Attached → Option Attached
attach_passes size self [] shm = none
attach_passes size self (found ∷ later) shm =
    let (ok, shm') = attach_loop size self found shm in
    let rest = attach_passes size self later shm' in if ok then some shm' else rest

-- In a group of less than three the writes to `key` are outside the array: none as well.
unfoldable pub init_shm : (self size : ℕ) → List (ℕ → Bool) → Option Attached
init_shm self size passes =
    let attached =
      attach_passes size self passes (update (λ i. none) self (some (segment_of self))) in
    if ltb size 3 then none else attached

-- The segments of all the other nodes below `n` are there.
abbrev pub all_found : ℕ → (self : ℕ) → (ℕ → Bool) → Bool
all_found zero self found = true
all_found (suc n) self found = all_found n self found && (n == self || can_attach found n)

abbrev pub some_pass : (size self : ℕ) → List (ℕ → Bool) → Bool
some_pass size self [] = false
some_pass size self (found ∷ later) = all_found size self found || some_pass size self later

-- A round succeeds when all are there.
attach_loop-all_found :
    (n self : ℕ) (found : ℕ → Bool) (shm : Attached)
    → (attach_loop n self found shm).0 ≡ all_found n self found
unfolding attach_loop
attach_loop-all_found zero self found shm = refl
attach_loop-all_found (suc n) self found shm =
    ground (arith, attach_loop-all_found n self found shm)

-- The own segment stays.
attach_loop_self :
    (n self : ℕ) (found : ℕ → Bool) (shm : Attached)
    → (attach_loop n self found shm).1 self ≡ shm self
unfolding attach_loop
attach_loop_self zero self found shm = refl
attach_loop_self (suc n) self found shm = ground (arith, attach_loop_self n self found shm)

-- After a round that succeeds, the others are attached.
attach_loop_others :
    (n self : ℕ) (found : ℕ → Bool) (shm : Attached) (i : ℕ)
    → (attach_loop n self found shm).0 ≡ true
    → i < n
    → i ≢ self
    → (attach_loop n self found shm).1 i ≡ some (segment_of i)
unfolding attach_loop
attach_loop_others zero self found shm i ok lt other = elim lt [ ]
attach_loop_others (suc n) self found shm i ok lt other = elim (Bool-cases (i == n)) [
  | inl same ↦ ground (arith, same, ok, other)
  | inr less ↦ ground (arith, less, ok, lt, other, attach_loop_others n self found shm i)
]

attach_passes_lem :
    (size self : ℕ) (passes : List (ℕ → Bool)) (shm : Attached) (i : ℕ)
    → shm self ≡ some (segment_of self)
    → some_pass size self passes ≡ true
    → i < size
    → (shm' : Attached) × (attach_passes size self passes shm ≡ some shm')
      × (shm' i ≡ some (segment_of i))
unfolding attach_passes
attach_passes_lem size self [] shm i own ends lt = ground (arith, ends)
attach_passes_lem size self (found ∷ later) shm i own ends lt =
    let r = attach_loop size self found shm in
    let same = attach_loop_self size self found shm in
    let all = attach_loop-all_found size self found shm in
    elim (Bool-cases r.0) [
      | inl ok ↦ (
        r.1,
        rw ok refl,
        elim (Bool-cases (i == self)) [
          | inl mine ↦ ground (arith, mine, same, own)
          | inr other ↦ attach_loop_others size self found shm i ok lt (ground (arith, other))
        ],
      )
      | inr failed ↦
          let (shm', e, at) =
            attach_passes_lem size self later r.1 i (same ∙ own) (ground (arith, all, failed, ends))
              lt in
          (shm', rw (failed, e) refl, at)
    ]

named : (i : ℕ) → segment_of i ≡ (if ltb i 3 then shared (5677 + i) else private_segment)
named zero = refl
named (suc zero) = refl
named (suc (suc zero)) = refl
named (suc (suc (suc i))) = ground arith

-- In a group of three or more, a process waits until, at some pass, the segments of the other nodes
-- among the first three are there. If there is such a pass, `init_shm` returns, and what is attached
-- is the segment of its key for each of the nodes 0, 1 and 2, but for every later node, whose key is
-- IPC_PRIVATE, a private segment of the process itself.
pub init_shm_lem :
    (self size : ℕ) (passes : List (ℕ → Bool)) (i : ℕ)
    → 2 < size
    → some_pass size self passes ≡ true
    → i < size
    → (shm : Attached) × (init_shm self size passes ≡ some shm)
      × (shm i ≡ some (if ltb i 3 then shared (5677 + i) else private_segment))
unfolding init_shm
init_shm_lem self size passes i three ends lt =
    let big : ltb size 3 ≡ false = ground arith in
    rw (big, sym (named i))
      (attach_passes_lem size self passes (update (λ i. none) self (some (segment_of self))) i
        (ground arith) ends lt)
