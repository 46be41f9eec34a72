-- ===== src/Consensus/BitMap.antt =====
-- The leader's bit map of at most seven nodes: what setting a bit does and what the population
-- count is, from tables over all the bit maps below 128.
use native.Mathlib.Omega.{arith}
use rdma_paxos.Prelude.{
  ℕ, ◌+◌, ◌/◌, ◌%◌, ◌^◌, ◌<◌, ◌≡◌, refl, bit_or, Bool, true, ◌&&◌, ◌||◌, ◌==◌, ==_iff, ltb, ltb→lt,
  leb, if◌then◌else◌, not, every_below, every_below-at, count_below, ap,
}
use rdma_paxos.Consensus.Quorum.{popcount, reached_quorum}
use rdma_paxos.Consensus.Leader.{first_votes}
use rdma_paxos.Consensus.Types.{ConsensusComponent}

-- Bit `j` of a bit map.
abbrev pub bit : ℕ → ℕ → Bool
bit b j = b / 2 ^ j % 2 == 1

abbrev or_row : ℕ → ℕ → ℕ → Bool
or_row b i j = if bit (bit_or b (2 ^ i)) j then (i == j || bit b j) else not (i == j || bit b j)

or_table :
    every_below
      (λ b. every_below (λ i. every_below (or_row b i) 7 && ltb (bit_or b (2 ^ i)) 128) 7)
      128
    ≡ true
unfolding every_below
or_table = refl

pop_table : every_below (λ b. popcount 64 b == count_below 7 (bit b)) 128 ≡ true
unfolding every_below popcount count_below
pop_table = refl

-- Setting bit `i` of a bit map of seven bits.
abbrev or_check : ℕ → ℕ → Bool
or_check b i = every_below (or_row b i) 7 && ltb (bit_or b (2 ^ i)) 128

or_check_holds : (b i : ℕ) → b < 128 → i < 7 → or_check b i ≡ true
or_check_holds b i lb li =
    every_below-at (or_check b) 7 i
      (every_below-at (λ b. every_below (or_check b) 7) 128 b or_table lb) li

pub or_bit : (b i j : ℕ) → b < 128 → i < 7 → j < 7 → bit (bit_or b (2 ^ i)) j ≡ i == j || bit b j
or_bit b i j lb li lj = ground (arith, or_check_holds b i lb li, every_below-at (or_row b i) 7 j)

pub or_below : (b i : ℕ) → b < 128 → i < 7 → bit_or b (2 ^ i) < 128
or_below b i lb li = ground (arith, or_check_holds b i lb li, ltb→lt (bit_or b (2 ^ i)) 128)

popcount_count : (b : ℕ) → b < 128 → popcount 64 b ≡ count_below 7 (bit b)
popcount_count b lb =
    (==_iff (popcount 64 b) (count_below 7 (bit b))).0
      (every_below-at (λ b. popcount 64 b == count_below 7 (bit b)) 128 b pop_table lb)

abbrev one_row : ℕ → ℕ → Bool
one_row i j = if bit (2 ^ i) j then j == i else not (j == i)

one_table : every_below (λ i. every_below (one_row i) 7 && ltb (2 ^ i) 128) 7 ≡ true
unfolding every_below
one_table = refl

one_checked : (i : ℕ) → i < 7 → every_below (one_row i) 7 && ltb (2 ^ i) 128 ≡ true
one_checked i li =
    every_below-at (λ i. every_below (one_row i) 7 && ltb (2 ^ i) 128) 7 i one_table li

pub first_votes-below : (comp : ConsensusComponent) → comp.node_id < 7 → first_votes comp < 128
unfolding first_votes
first_votes-below comp li = ground (arith, one_checked comp.node_id li)

pub bit-first_votes :
    (comp : ConsensusComponent) (j : ℕ)
    → comp.node_id < 7
    → j < 7
    → bit (first_votes comp) j ≡ j == comp.node_id
unfolding first_votes
bit-first_votes comp j li lj =
    ground (arith, one_checked comp.node_id li, every_below-at (one_row comp.node_id) 7 j)

pub reached_quorum_lem :
    (b g : ℕ) → b < 128 → reached_quorum b g ≡ leb (g / 2 + 1) (count_below 7 (bit b))
unfolding reached_quorum
reached_quorum_lem b g lb = ap (leb (g / 2 + 1)) (popcount_count b lb)
