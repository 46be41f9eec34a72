-- ===== src/Prelude/Count.antt =====
-- Counting the numbers below a bound that pass a test, and checking all of them.
use Prim.Native.Nat.{ℕ, zero, suc, ◌+◌, ◌≤◌, ◌<◌}
use mathlib.Core.Path.{◌≡◌, refl, ap}
use mathlib.Core.Bool.{Bool, true, false, ◌&&◌}
use native.Mathlib.Omega.{arith}
use mathlib.Core.Logic.{inl, inr}
use rdma_paxos.Prelude.Tests.{if◌then◌else◌, Bool-cases, ltb, ltb→lt}

unfoldable pub every_below : (ℕ → Bool) → ℕ → Bool
every_below test zero = true
every_below test (suc bound) =
    let below = every_below test bound in if test bound then below else false

pub every_below-at :
    (test : ℕ → Bool) (bound i : ℕ) → every_below test bound ≡ true → i < bound → test i ≡ true
unfolding every_below
every_below-at test zero i all lt = elim lt [ ]
every_below-at test (suc bound) i all lt = ground (arith, every_below-at test bound i)

unfoldable pub count_below : ℕ → (ℕ → Bool) → ℕ
count_below zero p = 0
count_below (suc n) p = if p n then suc (count_below n p) else count_below n p

pub count_below-le : (n : ℕ) (p : ℕ → Bool) → count_below n p ≤ n
unfolding count_below
count_below-le zero p = omega arith
count_below-le (suc n) p = ground (arith, count_below-le n p)

pub count_below_mono :
    (n : ℕ) (p q : ℕ → Bool)
    → ((j : ℕ) → j < n → p j ≡ true → q j ≡ true)
    → count_below n p ≤ count_below n q
unfolding count_below
count_below_mono zero p q h = omega arith
count_below_mono (suc n) p q h =
    ground (arith, h n (omega arith), count_below_mono n p q (λ j lt. h j (omega arith)))

pub count_below_ext :
    (n : ℕ) (p q : ℕ → Bool) → ((j : ℕ) → j < n → p j ≡ q j) → count_below n p ≡ count_below n q
unfolding count_below
count_below_ext zero p q h = refl
count_below_ext (suc n) p q h =
    ground (arith, h n (omega arith), count_below_ext n p q (λ j lt. h j (omega arith)))

-- Two tests that together pass more than `n` times below `n` pass at one number.
pub count_below_both :
    (n : ℕ) (p q : ℕ → Bool)
    → n < count_below n p + count_below n q
    → (j : ℕ) × (j < n) × (p j ≡ true) × (q j ≡ true)
unfolding count_below
count_below_both zero p q h = absurd (omega arith)
count_below_both (suc n) p q h = elim (Bool-cases (p n && q n)) [
  | inl both ↦ (n, omega arith, ground arith, ground arith)
  | inr differ ↦
      let (j, lt, pj, qj) = count_below_both n p q (ground arith) in (j, omega arith, pj, qj)
]

-- A test that fails from `n` on.
pub count_below_drop :
    (m n : ℕ) (p : ℕ → Bool)
    → n ≤ m
    → ((j : ℕ) → n ≤ j → p j ≡ false)
    → count_below m p ≡ count_below n p
unfolding count_below
count_below_drop zero n p le h = ap (λ k. count_below k p) {x = 0} (omega arith)
count_below_drop (suc m) n p le h = elim (Bool-cases (ltb n (suc m))) [
  | inl under ↦ ground (
    arith,
    count_below_drop m n p (omega (arith, ltb→lt n (suc m) under)) h,
    h m (omega (arith, ltb→lt n (suc m) under)),
  )
  | inr past ↦ ap (λ k. count_below k p) {x = suc m} (ground arith)
]
