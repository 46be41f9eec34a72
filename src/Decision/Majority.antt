-- ===== src/Decision/Majority.antt =====
-- Counting equal hashes: at most one hash has a majority, and `major_count_hash` finds the largest
-- count.
use native.Mathlib.Decide.{ℕ_discrete}
use rdma_paxos.Prelude.{
  ℕ, ◌+◌, ◌/◌, ◌≤◌, ◌<◌, ◌≡◌, ◌≢◌, ◌⊎◌, List, [], ◌∷◌, ◌++◌, ◌==◌, suc, if◌then◌else◌, length,
  arith, refl,
}
use rdma_paxos.Decision.{OutputPeer, count_hash, major_loop, major_count_hash}

-- A majority of the group reported `h`.
abbrev pub IsMajority : List OutputPeer → ℕ → Type 0
IsMajority peers h = length peers / 2 + 1 ≤ count_hash peers h

pub count_hash-le : (peers : List OutputPeer) (h : ℕ) → count_hash peers h ≤ length peers
unfolding count_hash
count_hash-le [] h = omega arith
count_hash-le (p ∷ ps) h = ground (arith, count_hash-le ps h)

pub count_hash-disjoint :
    (peers : List OutputPeer) (g h : ℕ)
    → g ≢ h
    → count_hash peers g + count_hash peers h ≤ length peers
unfolding count_hash
count_hash-disjoint [] g h ne = omega arith
count_hash-disjoint (p ∷ ps) g h ne = ground (arith, count_hash-disjoint ps g h ne)

pub count_hash-nil : (h : ℕ) → count_hash [] h ≡ 0
unfolding count_hash
count_hash-nil h = refl

pub count_hash-append :
    (peers : List OutputPeer) (p : OutputPeer) (h : ℕ)
    → count_hash (peers ++ p ∷ []) h
      ≡ (if p.hash == h then suc (count_hash peers h) else count_hash peers h)
unfolding count_hash
count_hash-append [] p h = ground arith
count_hash-append (q ∷ qs) p h = ground (arith, count_hash-append qs p h)

-- At most one hash has a majority of the group.
pub majority_unique :
    (peers : List OutputPeer) (g h : ℕ) → IsMajority peers g → IsMajority peers h → g ≡ h
majority_unique peers g h mg mh = elim (ℕ_discrete g h) [
  | yes e ↦ e
  | no ne ↦ absurd (omega (arith, count_hash-disjoint peers g h ne))
]

count_hash_split :
    (p : OutputPeer) (ps : List OutputPeer) (h : ℕ)
    → (count_hash ps h ≢ 0) ⊎ (count_hash (p ∷ ps) h ≤ count_hash (p ∷ ps) p.hash)
unfolding count_hash
count_hash_split p ps h = ground arith

-- Whatever part of the array is left, the loop ends with a count that is attained and that no hash
-- of that part exceeds.
record Largest (all : List OutputPeer) (max_cnt : ℕ) (out : ℕ × ℕ) : Type 0 where
  attained : out.0 ≡ count_hash all out.1
  above : max_cnt ≤ out.0

major_loop-Largest :
    (all rest : List OutputPeer) (max_cnt hash : ℕ)
    → max_cnt ≡ count_hash all hash
    → Largest all max_cnt (major_loop all rest max_cnt hash)
unfolding major_loop
major_loop-Largest all [] m h e = record { attained = e; above = omega arith }
major_loop-Largest all (p ∷ rest) m h e = ground (
  arith,
  major_loop-Largest all rest (count_hash all p.hash) p.hash refl,
  major_loop-Largest all rest m h e,
)

major_loop_covers :
    (all rest : List OutputPeer) (max_cnt hash h : ℕ)
    → max_cnt ≡ count_hash all hash
    → count_hash rest h ≢ 0
    → count_hash all h ≤ (major_loop all rest max_cnt hash).0
unfolding major_loop count_hash
major_loop_covers all [] m k h e nz = absurd (nz refl)
major_loop_covers all (p ∷ rest) m k h e nz = ground (
  arith,
  major_loop-Largest all rest (count_hash all p.hash) p.hash refl,
  major_loop-Largest all rest m k e,
  major_loop_covers all rest (count_hash all p.hash) p.hash h refl,
  major_loop_covers all rest m k h e,
)

count_hash-head : (p : OutputPeer) (ps : List OutputPeer) → 0 < count_hash (p ∷ ps) p.hash
unfolding count_hash
count_hash-head p ps = ground arith

major_first :
    (p : OutputPeer) (ps : List OutputPeer) (h : ℕ)
    → major_count_hash (p ∷ ps) h ≡ major_loop (p ∷ ps) ps (count_hash (p ∷ ps) p.hash) p.hash
unfolding major_count_hash major_loop
major_first p ps h = ground (arith, count_hash-head p ps)

-- For a group that is not empty, whatever `*hash_ptr` held before, `major_count_hash` returns the
-- largest number of peers with one hash, and leaves a hash with that number in `*hash_ptr`.
pub major_count_hash-largest :
    (p : OutputPeer) (ps : List OutputPeer) (before h : ℕ)
    → let out = major_count_hash (p ∷ ps) before in
      (out.0 ≡ count_hash (p ∷ ps) out.1) × (count_hash (p ∷ ps) h ≤ out.0)
major_count_hash-largest p ps before h = rw (major_first p ps before) (l.attained, bound)
  where
    all : List OutputPeer
    all = p ∷ ps

    l : Largest all (count_hash all p.hash) (major_loop all ps (count_hash all p.hash) p.hash)
    l = major_loop-Largest all ps (count_hash all p.hash) p.hash refl

    bound : count_hash all h ≤ (major_loop all ps (count_hash all p.hash) p.hash).0
    bound = ground (
      arith,
      l,
      count_hash_split p ps h,
      major_loop_covers all ps (count_hash all p.hash) p.hash h refl,
    )
