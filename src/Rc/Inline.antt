-- ===== src/Rc/Inline.antt =====
-- `find_max_inline` of dare_ibv.c.
use native.Mathlib.Omega.{arith}
use rdma_paxos.Prelude.{
  ℕ, zero, suc, ◌+◌, ◌/◌, ◌^◌, ◌≤◌, ◌<◌, ◌≡◌, ◌∙◌, refl, ap, ◌⊎◌, inl, inr, ◌==◌, Bool, true, false,
  Bool-cases, some,
}
use rdma_paxos.Rc.Post.{inline_loop, find_max_inline}

-- The largest of the powers of two up to 2 ^ k that is accepted, or that there is none.
abbrev pub IsLargest : (ℕ → Bool) → ℕ → ℕ × ℕ → Type 0
IsLargest accepts k out =
    ((out.0 ≡ 0)
      × ((j : ℕ) × (j ≤ k)
          × (out.1 ≡ 2 ^ j)
          × (accepts out.1 ≡ true)
          × ((m : ℕ) → j < m → m ≤ k → accepts (2 ^ m) ≡ false)))
    ⊎ ((out.0 ≡ 1) × (out.1 ≡ 0) × ((m : ℕ) → m ≤ k → accepts (2 ^ m) ≡ false))

pow_positive : (k : ℕ) → 0 < 2 ^ k
pow_positive zero = omega arith
pow_positive (suc k) = omega (arith, pow_positive k)

pow_half : (k : ℕ) → 2 ^ suc k / 2 ≡ 2 ^ k
pow_half k = omega arith

last_refused :
    (accepts : ℕ → Bool) (k m : ℕ)
    → accepts (2 ^ suc k) ≡ false
    → m ≤ suc k
    → (m ≤ k → accepts (2 ^ m) ≡ false)
    → accepts (2 ^ m) ≡ false
last_refused accepts k m bad le below = elim (Bool-cases (m == suc k)) [
  | inl last ↦ ap (λ x. accepts (2 ^ x)) {x = m} {y = suc k} (ground arith) ∙ bad
  | inr before ↦ below (ground arith)
]

IsLargest-suc :
    (accepts : ℕ → Bool) (k : ℕ) (out : ℕ × ℕ)
    → accepts (2 ^ suc k) ≡ false
    → IsLargest accepts k out
    → IsLargest accepts (suc k) out
IsLargest-suc accepts k out bad (inl (ok, (j, le, e, good, above))) = inl (
  ok,
  (j, omega arith, e, good, λ m lt le'. last_refused accepts k m bad le' (λ le''. above m lt le'')),
)
IsLargest-suc accepts k out bad (inr (one, e, none_below)) =
    inr (one, e, λ m le'. last_refused accepts k m bad le' (λ le''. none_below m le''))

IsLargest-first :
    (accepts : ℕ → Bool) (k : ℕ) → accepts (2 ^ k) ≡ true → IsLargest accepts k (0, 2 ^ k)
IsLargest-first accepts k good =
    inl (refl, (k, omega arith, refl, good, λ m lt le. absurd (omega arith)))

inline_loop_lem :
    (accepts : ℕ → Bool) (k fuel : ℕ)
    → k + 2 ≤ fuel
    → (out : ℕ × ℕ) × (inline_loop fuel accepts (2 ^ k) ≡ some out) × IsLargest accepts k out
unfolding inline_loop
inline_loop_lem accepts k zero le = absurd (omega arith)
inline_loop_lem accepts zero (suc zero) le = absurd (omega arith)
inline_loop_lem accepts zero (suc (suc fuel)) le = elim (Bool-cases (accepts 1)) [
  | inl good ↦ ((0, 1), rw good refl, IsLargest-first accepts 0 good)
  | inr bad ↦ (
    (1, 0),
    rw bad refl,
    inr (refl, refl, λ m le'. ap (λ x. accepts (2 ^ x)) {x = m} {y = 0} (omega arith) ∙ bad),
  )
]
inline_loop_lem accepts (suc k) (suc fuel) le =
    let positive : ((2 ^ suc k) == 0) ≡ false = ground (arith, pow_positive (suc k)) in
    elim (Bool-cases (accepts (2 ^ suc k))) [
      | inl good ↦ (
        (0, 2 ^ suc k),
        rw (positive, good, inline_loop) refl,
        IsLargest-first accepts (suc k) good,
      )
      | inr bad ↦
          let (out, e, is) = inline_loop_lem accepts k fuel (omega arith) in
          (out, rw (positive, bad, pow_half k, inline_loop) e, IsLargest-suc accepts k out bad is)
    ]

-- The search for the inline size ends. Where the completion queue can be made, the result is 0 with
-- the largest of the powers of two up to 2 ^ 20 with which a queue pair can be made, or 1 with 0 when
-- there is none of them.
pub find_max_inline_lem :
    (accepts : ℕ → Bool)
    → (out : ℕ × ℕ) × (find_max_inline true accepts ≡ some out) × IsLargest accepts 20 out
unfolding find_max_inline
find_max_inline_lem accepts = inline_loop_lem accepts 20 22 (omega arith)
