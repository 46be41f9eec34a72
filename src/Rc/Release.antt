-- ===== src/Rc/Release.antt =====
-- `rc_free` after an `rc_init` that has failed, or without endpoints.
use native.Mathlib.Omega.{arith}
use mathlib.Core.Option.{none-ne-some}
use rdma_paxos.Prelude.{
  Option-cases, Bool-cases, inl, inr, sym, subst, ◌∙◌, some, none, ℕ, zero, suc, ◌<◌, ◌≡◌, refl,
  ◌==◌, Bool, true, false, ◌&&◌, List, [],
}
use rdma_paxos.Rc.Setup.{
  Library, Resources, Release, rc_prerequisite, rc_memory_reg, rc_cq_create, rc_qp_create,
  create_queues, rc_init, destroy_queues, rc_free,
}

-- Both queues of server `i` are there.
abbrev pub has_queues : Resources → ℕ → Bool
has_queues r i = r.qp i && r.cq i

create_queues-missing :
    (n : ℕ) (lib : Library) (r : Resources)
    → ((create_queues n lib r).0 == 0) ≡ false
    → (i : ℕ) × (i < n) × (has_queues (create_queues n lib r).1 i ≡ false)
unfolding create_queues rc_cq_create rc_qp_create
create_queues-missing zero lib r e = absurd (ground (arith, e))
create_queues-missing (suc n) lib r e = elim (Bool-cases ((create_queues n lib r).0 == 0)) [
  | inl before ↦ (n, omega arith, ground (arith, before, e))
  | inr failed ↦
      let (i, lt, gone) = create_queues-missing n lib r failed in
      (i, omega (arith, lt), rw (failed, create_queues) gone)
]

-- When `rc_init` fails from memory that is all zero, a queue of some server is not there.
pub rc_init-missing :
    (len : ℕ) (lib : Library) (r : Resources)
    → 0 < len
    → r.qp 0 ≡ false
    → ((rc_init len lib r).0 == 0) ≡ false
    → (i : ℕ) × (i < len) × (has_queues (rc_init len lib r).1 i ≡ false)
unfolding rc_init rc_prerequisite rc_memory_reg
rc_init-missing len lib r lt zeroed e = elim (Bool-cases ((rc_prerequisite lib r).0 == 0)) [
  | inr failed ↦ (0, lt, ground (arith, failed, zeroed))
  | inl ready ↦ elim (Bool-cases ((rc_memory_reg lib (rc_prerequisite lib r).1).0 == 0)) [
    | inr failed ↦ (0, lt, ground (arith, ready, failed, zeroed))
    | inl registered ↦
        let (i, lt', gone) =
          create_queues-missing len lib ((rc_memory_reg lib (rc_prerequisite lib r).1).1)
            (ground (arith, ready, registered, e)) in
        (i, lt', ground (arith, ready, registered, gone))
  ]
]

-- A server with an endpoint and without one of its queues stops the loop.
destroy_queues-missing :
    (n : ℕ) (ep : ℕ → Bool) (r : Resources) (i : ℕ)
    → i < n
    → ep i ≡ true
    → has_queues r i ≡ false
    → destroy_queues n ep r ≡ none
unfolding destroy_queues
destroy_queues-missing zero ep r i lt has gone = elim lt [ ]
destroy_queues-missing (suc n) ep r i lt has gone = elim (Option-cases (destroy_queues n ep r)) [
  | inl stopped ↦ rw stopped refl
  | inr (out, on) ↦ elim (Bool-cases (i == n)) [
    | inl same ↦
        let i≡n : i ≡ n = ground (arith, same) in
        rw (on, subst (λ k. ep k ≡ true) i≡n has, subst (λ k. has_queues r k ≡ false) i≡n gone) refl
    | inr less ↦ absurd (
        none-ne-some out
          (sym (destroy_queues-missing n ep r i (ground (arith, lt, less)) has gone) ∙ on))
  ]
]

pub rc_free-missing :
    (len : ℕ) (ep : ℕ → Bool) (r : Resources) (i : ℕ)
    → i < len
    → ep i ≡ true
    → has_queues r i ≡ false
    → rc_free len ep r ≡ none
unfolding rc_free
rc_free-missing len ep r i lt has gone =
    rw (destroy_queues-missing len ep r i lt has gone, rc_free) refl

destroy_queues-no_ep :
    (n : ℕ) (ep : ℕ → Bool) (r : Resources)
    → ((i : ℕ) → i < n → ep i ≡ false)
    → destroy_queues n ep r ≡ some ([], r)
unfolding destroy_queues
destroy_queues-no_ep zero ep r lacks = refl
destroy_queues-no_ep (suc n) ep r lacks =
    rw (destroy_queues-no_ep n ep r (λ i lt. lacks i (omega (arith, lt))), lacks n (omega arith))
      refl

-- Without endpoints nothing stands in the way.
pub rc_free-no_ep :
    (len : ℕ) (ep : ℕ → Bool) (r : Resources)
    → ((i : ℕ) → i < len → ep i ≡ false)
    → (out : List Release × Resources) × (rc_free len ep r ≡ some out)
unfolding rc_free
rc_free-no_ep len ep r lacks = rw (destroy_queues-no_ep len ep r lacks, rc_free) (_, refl)
